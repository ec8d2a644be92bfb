-- ===== src/Text/ReadBack.antt =====
-- What the steps of src/storage/commit_manifest.c and src/storage/checkpoint_manifest.c read of a text that
-- was written.
use otsardb.Base.{
  ℕ, ◌-◌, ◌<◌, ◌≤◌, ◌≡◌, refl, ap, true, false, not, some, ◌∷◌, ◌++◌, leb, ◌==◌, length, drop,
  arith, length-append, take-append,
}
use otsardb.Text.{Text, quote, strstr}
use otsardb.Text.Search.{Lacks, strchr-append}
use otsardb.Text.Scan.{behind_key, until_quote, quoted_value}

pub behind_key_lem :
    (json pattern found : Text)
    → not (leb 80 (length pattern)) ≡ true
    → strstr json pattern ≡ some found
    → behind_key json pattern ≡ some (drop (length pattern) found)
unfolding behind_key
behind_key_lem json pattern found fits e = rw (fits, e) refl

pub until_quote-append :
    (value rest : Text)
    → Lacks quote value
    → until_quote (value ++ quote ∷ rest) ≡ some (value, rest)
unfolding until_quote
until_quote-append value rest plain =
    let close = strchr-append quote value rest plain in
    let size = length-append value (quote ∷ rest) in
    let len : length (value ++ quote ∷ rest) - length (quote ∷ rest) ≡ length value = omega arith in
    rw (close, len)
      (ap (λ t. some (t, rest)) (take-append (length value) value (quote ∷ rest) refl))

pub quoted_value-append :
    (out_size : ℕ) (value rest : Text)
    → Lacks quote value
    → 1 ≤ length value
    → length value < out_size
    → quoted_value false out_size (value ++ quote ∷ rest) ≡ some value
unfolding quoted_value
quoted_value-append out_size value rest plain given short =
    let some_bytes : not (length value == 0) ≡ true = ground arith in
    let room : not (leb out_size (length value)) ≡ true = ground arith in
    rw (until_quote-append value rest plain, some_bytes, room) refl
