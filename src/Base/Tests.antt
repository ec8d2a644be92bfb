-- ===== src/Base/Tests.antt =====
-- Boolean tests on the native numbers, the conditional, and splits that keep their equation.
use Prim.Native.Nat.{ℕ, ◌≤◌, ◌<◌, compare, Ordering}
use mathlib.Core.Path.{◌≡◌, refl}
use mathlib.Core.Logic.{◌↔◌, ◌⊎◌, inl, inr}
use mathlib.Core.Bool.{Bool, true, false, ◌&&◌}
use mathlib.Core.Option.{Option, none, some}
use native.Mathlib.Omega.{arith}

abbrev pub ltb : ℕ → ℕ → Bool
ltb a b = elim (compare a b) [ Ordering.lt ↦ true | _ ↦ false ]

abbrev pub leb : ℕ → ℕ → Bool
leb a b = elim (compare a b) [ Ordering.gt ↦ false | _ ↦ true ]

infix 50 ◌==◌
abbrev pub ◌==◌ : ℕ → ℕ → Bool
a == b = elim (compare a b) [ Ordering.eq ↦ true | _ ↦ false ]

infix 1 if◌then◌else◌
abbrev pub if◌then◌else◌ {ℓ} : {A : Type ℓ} → Bool → A → A → A
if true then x else y = x
if false then x else y = y

pub ltb→lt : (a b : ℕ) → ltb a b ≡ true → a < b
ltb→lt a b h = ground arith

pub lt→ltb : (a b : ℕ) → a < b → ltb a b ≡ true
lt→ltb a b h = ground arith

pub leb→le : (a b : ℕ) → leb a b ≡ true → a ≤ b
leb→le a b h = ground arith

pub le→leb : (a b : ℕ) → a ≤ b → leb a b ≡ true
le→leb a b h = ground arith

pub ==_iff : (a b : ℕ) → ((a == b) ≡ true) ↔ (a ≡ b)
==_iff a b = ground arith

pub ==_refl : (a : ℕ) → (a == a) ≡ true
==_refl a = ground arith

pub Bool-cases : (b : Bool) → (b ≡ true) ⊎ (b ≡ false)
Bool-cases true = inl refl
Bool-cases false = inr refl

pub Option-cases {ℓ} : {A : Type ℓ} (o : Option A) → (o ≡ none) ⊎ ((a : A) × (o ≡ some a))
Option-cases none = inl refl
Option-cases (some a) = inr (a, refl)

-- `some x >>= f` computes wherever it stands, and `guard` stands for an early return.
infixl 5 ◌>>=◌ ◌>>◌
abbrev pub ◌>>=◌ {ℓ κ} : {A : Type ℓ} {B : Type κ} → Option A → (A → Option B) → Option B
none >>= f = none
some a >>= f = f a

abbrev pub ◌>>◌ {ℓ} : {B : Type ℓ} → Option (Unit {0}) → Option B → Option B
m >> k = m >>= λ _. k

abbrev pub guard : Bool → Option (Unit {0})
guard true = some tt
guard false = none

-- A chain of partial steps that succeeds has a first step that succeeds.
pub bind_some {ℓ κ} :
    {A : Type ℓ} {B : Type κ} (q : Option A) (f : A → Option B) (b : B)
    → (q >>= f) ≡ some b
    → (a : A) × (q ≡ some a) × (f a ≡ some b)
bind_some none f b h = absurd (cc h)
bind_some (some a) f b h = (a, refl, h)

pub guard-some {ℓ} :
    {B : Type ℓ} (test : Bool) (q : Option B) (b : B)
    → (guard test >> q) ≡ some b
    → (test ≡ true) × (q ≡ some b)
guard-some true q b h = (refl, h)
guard-some false q b h = absurd (cc h)

pub both_true : (a b : Bool) → a ≡ true → b ≡ true → (a && b) ≡ true
both_true true b h k = k
both_true false b h k = absurd (cc h)

pub true_both : (a b : Bool) → (a && b) ≡ true → (a ≡ true) × (b ≡ true)
true_both true b h = (refl, h)
true_both false b h = absurd (cc h)

-- A test that ends with a value, or goes on.
pub ends_or {ℓ} :
    {A : Type ℓ} (test : Bool) (a b : A) (q : Option A)
    → (if test then some a else q) ≡ some b
    → (a ≡ b) ⊎ ((test ≡ false) × (q ≡ some b))
ends_or true a b q h = inl (cc h)
ends_or false a b q h = inr (refl, h)

pub some_eq {ℓ} : {A : Type ℓ} (a b : A) → some a ≡ some b → a ≡ b
some_eq a b h = cc
