-- ===== src/Text/Search.antt =====
-- Searching a JSON document for a key: what strstr and strchr pass by and what they find.
use otsardb.Base.{ℕ, ◌≡◌, ◌≢◌, refl, true, false, some, [], ◌∷◌, ◌++◌, arith, All}
use otsardb.Text.{Text, quote, cstr, text_eq, is_prefix, strstr, strchr}

abbrev pub Lacks : ℕ → Text → Type 0
Lacks c = All (λ d. d ≢ c)

pub strchr-append :
    (c : ℕ) (text rest : Text) → Lacks c text → strchr (text ++ c ∷ rest) c ≡ some (c ∷ rest)
strchr-append c [] rest h = ground arith
strchr-append c (d ∷ text) rest h = ground (arith, strchr-append c text rest h.1)

-- A text without the first byte of the pattern is passed by.
pub strstr-append :
    (c : ℕ) (pattern text rest : Text)
    → Lacks c text
    → strstr (text ++ rest) (c ∷ pattern) ≡ strstr rest (c ∷ pattern)
strstr-append c pattern [] rest h = refl
strstr-append c pattern (d ∷ text) rest h = ground (arith, strstr-append c pattern text rest h.1)

pub is_prefix-append : (pattern rest : Text) → is_prefix pattern (pattern ++ rest) ≡ true
is_prefix-append [] rest = refl
is_prefix-append (c ∷ pattern) rest = ground (arith, is_prefix-append pattern rest)

-- A quoted value that is followed by `d` does not match a quoted key that is followed by a colon.
key-ne-value :
    (key value pattern rest : Text) (d : ℕ)
    → Lacks quote key
    → Lacks quote value
    → d ≢ 58
    → is_prefix (key ++ quote ∷ 58 ∷ pattern) (value ++ quote ∷ d ∷ rest) ≡ false
key-ne-value [] [] pattern rest d hk hv h = ground arith
key-ne-value [] (x ∷ value) pattern rest d hk hv h = ground arith
key-ne-value (c ∷ key) [] pattern rest d hk hv h = ground arith
key-ne-value (c ∷ key) (x ∷ value) pattern rest d hk hv h =
    ground (arith, key-ne-value key value pattern rest d hk.1 hv.1 h)

-- So the search for the key passes the value by.
pub strstr-value :
    (key value pattern rest : Text) (d : ℕ)
    → Lacks quote key
    → Lacks quote value
    → d ≢ 58
    → strstr (quote ∷ (value ++ quote ∷ d ∷ rest)) (quote ∷ (key ++ quote ∷ 58 ∷ pattern))
      ≡ strstr (quote ∷ d ∷ rest) (quote ∷ (key ++ quote ∷ 58 ∷ pattern))
strstr-value key value pattern rest d hk hv h =
    rw (key-ne-value key value pattern rest d hk hv h)
      (strstr-append quote (key ++ quote ∷ 58 ∷ pattern) value (quote ∷ d ∷ rest) hv)

-- A quoted value matches a quoted key only if it is the key.
key-eq-value :
    (key value rest : Text)
    → Lacks quote key
    → Lacks quote value
    → is_prefix (key ++ quote ∷ []) (value ++ quote ∷ rest) ≡ text_eq key value
key-eq-value [] [] rest hk hv = refl
key-eq-value [] (x ∷ value) rest hk hv = ground arith
key-eq-value (c ∷ key) [] rest hk hv = ground arith
key-eq-value (c ∷ key) (x ∷ value) rest hk hv =
    ground (arith, key-eq-value key value rest hk.1 hv.1)

pub strstr-other :
    (key value rest : Text)
    → Lacks quote key
    → Lacks quote value
    → text_eq key value ≡ false
    → strstr (quote ∷ (value ++ quote ∷ rest)) (quote ∷ (key ++ quote ∷ []))
      ≡ strstr (quote ∷ rest) (quote ∷ (key ++ quote ∷ []))
strstr-other key value rest hk hv h =
    rw (key-eq-value key value rest hk hv, h)
      (strstr-append quote (key ++ quote ∷ []) value (quote ∷ rest) hv)

pub cstr_id : (text : Text) → Lacks 0 text → cstr text ≡ text
unfolding cstr
cstr_id [] h = refl
cstr_id (b ∷ text) h = ground (arith, cstr_id text h.1)

pub text_eq_refl : (text : Text) → text_eq text text ≡ true
text_eq_refl [] = refl
text_eq_refl (c ∷ text) = ground (arith, text_eq_refl text)

pub text_eq→eq : (a b : Text) → text_eq a b ≡ true → a ≡ b
text_eq→eq [] [] h = refl
text_eq→eq [] (y ∷ b) h = cc
text_eq→eq (x ∷ a) [] h = cc
text_eq→eq (x ∷ a) (y ∷ b) h = ground (arith, text_eq→eq a b)
