-- ===== src/Common.antt =====
-- Names that the other modules share: the libraries', passed on, Boolean tests, and list helpers.
use Prim.Native.Nat.{compare, Ordering}
pub use Prim.Native.Nat.{ℕ, zero, suc, ◌+◌, ◌-◌, ◌*◌, ◌/◌, ◌≤◌, ◌<◌}
pub use Prim.Native.String.{String}
pub use mathlib.Core.Path.{◌≡◌, refl, sym, ap, ◌∙◌, subst}
pub use mathlib.Core.Logic.{◌≢◌, ◌↔◌, ◌⊎◌, inl, inr}
pub use mathlib.Core.Bool.{Bool, true, false, not, ◌&&◌, ◌||◌}
pub use mathlib.Core.Option.{Option, none, some}
pub use mathlib.Core.List.{List, [], ◌∷◌, ◌++◌, map}
pub use native.Mathlib.Omega.{arith}
pub use text.Mathlib.Text.{◌==◌ as str_eq}
pub use text.Mathlib.TextEquality.{eq_iff}
pub use text.Mathlib.TextPositions.{eq_refl}

-- These compute to `compare`, which `ground` and `grind` read with no lemma listed.
abbrev pub ltb : ℕ → ℕ → Bool
ltb a b = elim (compare a b) [ Ordering.lt ↦ true | _ ↦ false ]

abbrev pub leb : ℕ → ℕ → Bool
leb a b = elim (compare a b) [ Ordering.gt ↦ false | _ ↦ true ]

infix 50 ◌==◌
abbrev pub ◌==◌ : ℕ → ℕ → Bool
a == b = elim (compare a b) [ Ordering.eq ↦ true | _ ↦ false ]

infix 1 if◌then◌else◌
abbrev pub if◌then◌else◌ {ℓ} : {A : Type ℓ} → Bool → A → A → A
if true then x else y = x
if false then x else y = y

-- To split on a computed value and keep the equation.
pub Bool-cases : (b : Bool) → (b ≡ true) ⊎ (b ≡ false)
Bool-cases true = inl refl
Bool-cases false = inr refl

module _ {ℓ} {A : Type ℓ} where
  pub Option-cases : (o : Option A) → (o ≡ none) ⊎ ((a : A) × (o ≡ some a))
  Option-cases none = inl refl
  Option-cases (some a) = inr (a, refl)

  abbrev pub is_some : Option A → Bool
  is_some none = false
  is_some (some a) = true

  abbrev pub or_default : Option A → A → A
  or_default none d = d
  or_default (some a) d = a

  abbrev pub length : List A → ℕ
  length [] = 0
  length (x ∷ xs) = suc (length xs)

  pub length-append : (xs ys : List A) → length (xs ++ ys) ≡ length xs + length ys
  length-append [] ys = omega arith
  length-append (x ∷ xs) ys = omega (arith, length-append xs ys)

  abbrev pub get_elem? : List A → ℕ → Option A
  get_elem? [] i = none
  get_elem? (x ∷ xs) zero = some x
  get_elem? (x ∷ xs) (suc i) = get_elem? xs i

  abbrev pub All {κ} : (A → Type κ) → List A → Type κ
  All P [] = Unit
  All P (x ∷ xs) = P x × All P xs

  -- JavaScript's `Array.some`.
  abbrev pub any : (A → Bool) → List A → Bool
  any p [] = false
  any p (x ∷ xs) = p x || any p xs

  -- JavaScript's `Array.filter`, on a Boolean test.
  abbrev pub keep : (A → Bool) → List A → List A
  keep p [] = []
  keep p (x ∷ xs) = if p x then x ∷ keep p xs else keep p xs

  -- JavaScript's `Array.find`.
  abbrev pub find : (A → Bool) → List A → Option A
  find p [] = none
  find p (x ∷ xs) = if p x then some x else find p xs

pub any-find : {A : Type 0} (p : A → Bool) (xs : List A) → any p xs ≡ is_some (find p xs)
any-find p [] = refl
any-find p (x ∷ xs) = ground (arith, any-find p xs)

pub any-append :
    {A : Type 0} (p : A → Bool) (xs ys : List A) → any p (xs ++ ys) ≡ (any p xs || any p ys)
any-append p [] ys = refl
any-append p (x ∷ xs) ys = ground (arith, any-append p xs ys)

pub any-map_none :
    {A B : Type 0} (p : B → Bool) (f : A → B)
    → ((x : A) → p (f x) ≡ false)
    → (xs : List A) → any p (map f xs) ≡ false
any-map_none p f none_is [] = refl
any-map_none p f none_is (x ∷ xs) = ground (arith, any-map_none p f none_is xs, none_is x)

pub keep-append :
    {A : Type 0} (p : A → Bool) (xs ys : List A) → keep p (xs ++ ys) ≡ keep p xs ++ keep p ys
keep-append p [] ys = refl
keep-append p (x ∷ xs) ys = ground (arith, keep-append p xs ys)

module _ {A : Type 0} where
  -- Where an entry stands in a list.
  abbrev pub Among : A → List A → Type 0
  Among a [] = ⊥
  Among a (x ∷ xs) = (a ≡ x) ⊎ Among a xs

  pub Among-keep :
      (p : A → Bool) (a : A) (xs : List A) → Among a (keep p xs) ↔ (Among a xs × (p a ≡ true))
  Among-keep p a [] = ground arith
  Among-keep p a (x ∷ xs) = elim (Bool-cases (p x)) [
    | inl e ↦ rw e (grind (arith, Among-keep p a xs))
    | inr e ↦ rw e (grind (arith, Among-keep p a xs))
  ]

  pub All-Among : {P : A → Type 0} (xs : List A) → ((a : A) → Among a xs → P a) → All P xs
  All-Among [] h = tt
  All-Among (x ∷ xs) h = (h x (inl refl), All-Among xs (λ a m. h a (inr m)))

  pub Among-All : (P : A → Type 0) (xs : List A) → All P xs → (a : A) → Among a xs → P a
  Among-All P [] h a m = absurd m
  Among-All P (x ∷ xs) (h, hs) a (inl e) = rw e h
  Among-All P (x ∷ xs) (h, hs) a (inr m) = Among-All P xs hs a m

  pub Among-append : (a : A) (xs ys : List A) → Among a (xs ++ ys) ↔ (Among a xs ⊎ Among a ys)
  Among-append a [] ys = ground arith
  Among-append a (x ∷ xs) ys = ground (arith, Among-append a xs ys)
