-- ===== src/Text/Write.antt =====
-- Writing a document piece by piece with snprintf into a buffer that was allocated for its computed
-- size, as the encoders of src/storage/commit_manifest.c and src/storage/checkpoint_manifest.c do.
use otsardb.Base.{
  ℕ, ◌+◌, ◌-◌, ◌≤◌, ◌<◌, ◌^◌, ◌≡◌, refl, ap, ◌∙◌, ◌||◌, not, Option, some, [], ◌++◌, leb, ltb,
  lt→ltb, ◌==◌, ◌>>=◌, ◌>>◌, guard, length, arith, append_assoc, append-nil, sym, ap₂, le→leb,
  length-append,
}
use otsardb.Text.{Text}

-- What is written, and the bytes that are left, one of them for the NUL.
abbrev pub Buffer : Type 0
Buffer = Text × ℕ

abbrev pub int_max : ℕ
int_max = 2 ^ 31 - 1

-- `n = snprintf(cursor, remaining, ...); if (n <= 0 || n >= remaining) return 0;`
unfoldable pub emit : Text → Buffer → Option Buffer
emit text (out, remaining) = do
  guard (not (length text == 0 || leb remaining (length text)))
  some (out ++ text, remaining - length text)

-- `needed + 1` as an int, from which the bytes that are left are counted: at the largest int it
-- overflows, where C gives the encoder no meaning and the model gives it no result.
unfoldable pub room_for : ℕ → Option ℕ
room_for needed = do guard (ltb needed int_max); some (needed + 1)

-- `n = snprintf(NULL, 0, ...); if (n < 0) return 0;`
unfoldable pub print_size : Text → Option ℕ
print_size text = do guard (leb (length text) int_max); some (length text)

-- A writer that writes `text` whenever there is room for it.
pub record Writes (f : Buffer → Option Buffer) (text : Text) : Type 0 where
  pub fits :
      (out : Text) (remaining : ℕ)
      → length text < remaining
      → f (out, remaining) ≡ some (out ++ text, remaining - length text)

pub emit-Writes : (text : Text) → 1 ≤ length text → Writes (emit text) text
unfolding emit
emit-Writes text given = record { fits = λ out remaining room. ground arith }

pub Writes-both :
    (f g : Buffer → Option Buffer) (a b : Text)
    → Writes f a
    → Writes g b
    → Writes (λ buffer. f buffer >>= g) (a ++ b)
Writes-both f g a b first second = record {
  fits = λ out remaining room.
      let size = length-append a b in
      ap (λ r. r >>= g) (first.fits out remaining (omega arith))
      ∙ second.fits (out ++ a) (remaining - length a) (omega arith)
      ∙ ap (λ t. some (t, remaining - length a - length b)) (append_assoc out a b)
      ∙ ap (λ n. some (out ++ (a ++ b), n)) (omega arith);
}

pub Writes-none : Writes (λ buffer. some buffer) []
Writes-none = record {
  fits = λ out remaining room. ap₂ (λ t n. some (t, n)) (sym (append-nil out)) (omega arith);
}

pub room_for_lem : (needed : ℕ) → needed < int_max → room_for needed ≡ some (needed + 1)
unfolding room_for
room_for_lem needed h = rw (lt→ltb needed int_max h) refl

-- What is written comes to the size that the print gives.
pub print_size_lem : (text : Text) → length text ≤ int_max → print_size text ≡ some (length text)
unfolding print_size
print_size_lem text h = rw (le→leb (length text) int_max h) refl
