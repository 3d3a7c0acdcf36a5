-- ===== src/Book/Orders.antt =====
-- The live orders of an ideal order table, and the shares that rest on each side at each price.
use nasdaq_itch_parser_order.Prelude.{
  ℕ, ◌+◌, ◌%◌, ◌≤◌, ◌<◌, ◌≡◌, refl, ap, Bool, ◌&&◌, none, some, [], ◌∷◌, arith, ◌==◌, bool_eq,
  if◌then◌else◌, inl, inr, Bool-cases, ==_refl, All,
}
use nasdaq_itch_parser_order.Dict
use nasdaq_itch_parser_order.Dict.{Dict}
use nasdaq_itch_parser_order.Structs.{L3Entry}
use nasdaq_itch_parser_order.Bbo.Adds.{bool_eq_refl}

abbrev pub Orders : Type 0
Orders = Dict L3Entry

-- what an order adds to the shares of a price
abbrev pub part : Bool → ℕ → L3Entry → ℕ
part b p e = if bool_eq b e.is_buy && p == e.price then e.shares else 0

unfoldable pub resting : Bool → ℕ → Orders → ℕ
resting b p [] = 0
resting b p ((k, e) ∷ d) = part b p e + resting b p d

abbrev pub DistinctKeys : {V : Type 0} → Dict V → Type 0
DistinctKeys [] = Unit {0}
DistinctKeys ((k, v) ∷ d) = (Dict.lookup k d ≡ none) × DistinctKeys d

-- an order that the book can hold: some shares, at a price on a tick
abbrev pub Fair : L3Entry → Type 0
Fair e = (0 < e.shares) × (e.price % 50 ≡ 0)

abbrev pub AllFair : Orders → Type 0
AllFair = All (λ e. Fair e.1)

pub own_part : (e : L3Entry) → part e.is_buy e.price e ≡ e.shares
own_part e = rw (bool_eq_refl e.is_buy, ==_refl e.price) refl

pub resting-insert_new :
    (b : Bool) (p k : ℕ) (e : L3Entry) (d : Orders)
    → Dict.lookup k d ≡ none
    → resting b p (Dict.insert k e d) ≡ resting b p d + part b p e
unfolding resting Dict.lookup Dict.insert
resting-insert_new b p k e [] h = omega arith
resting-insert_new b p k e ((j, x) ∷ d) h = elim (Bool-cases (j == k)) [
  | inl w ↦ absurd (ground arith)
  | inr w ↦ rw w (omega (arith, resting-insert_new b p k e d (rw w at h)))
]

pub resting-insert_old :
    (b : Bool) (p k : ℕ) (e old : L3Entry) (d : Orders)
    → Dict.lookup k d ≡ some old
    → resting b p (Dict.insert k e d) + part b p old ≡ resting b p d + part b p e
unfolding resting Dict.lookup Dict.insert
resting-insert_old b p k e old [] h = absurd cc
resting-insert_old b p k e old ((j, x) ∷ d) h = elim (Bool-cases (j == k)) [
  | inl w ↦ let same : x ≡ old = ground arith in rw (w, same) (omega arith)
  | inr w ↦ rw w (omega (arith, resting-insert_old b p k e old d (rw w at h)))
]

pub delete_absent : {V : Type 0} (k : ℕ) (d : Dict V) → Dict.lookup k d ≡ none → Dict.delete k d ≡ d
unfolding Dict.lookup Dict.delete
delete_absent k [] h = refl
delete_absent k ((j, x) ∷ d) h = elim (Bool-cases (j == k)) [
  | inl w ↦ absurd (ground arith)
  | inr w ↦ rw w (ap (◌∷◌ (j, x)) (delete_absent k d (rw w at h)))
]

pub resting-delete :
    (b : Bool) (p k : ℕ) (old : L3Entry) (d : Orders)
    → Dict.lookup k d ≡ some old
    → DistinctKeys d
    → resting b p (Dict.delete k d) + part b p old ≡ resting b p d
unfolding resting Dict.lookup Dict.delete
resting-delete b p k old [] h hd = absurd cc
resting-delete b p k old ((j, x) ∷ d) h hd = elim (Bool-cases (j == k)) [
  | inl w ↦
      let same : x ≡ old = ground arith in
      let absent : Dict.lookup k d ≡ none = ground (arith, hd.0) in
      rw (w, same, delete_absent k d absent) (omega arith)
  | inr w ↦ rw w (omega (arith, resting-delete b p k old d (rw w at h) hd.1))
]

pub insert-DistinctKeys :
    {V : Type 0} (k : ℕ) (v : V) (d : Dict V) → DistinctKeys d → DistinctKeys (Dict.insert k v d)
unfolding Dict.insert Dict.lookup
insert-DistinctKeys k v [] h = (refl, tt)
insert-DistinctKeys k v ((j, x) ∷ d) h = elim (Bool-cases (j == k)) [
  | inl w ↦ rw w (ground (arith, h.0), h.1)
  | inr w ↦ rw w (ground (arith, Dict.lookup-insert k j v d, h.0), insert-DistinctKeys k v d h.1)
]

pub delete-DistinctKeys :
    {V : Type 0} (k : ℕ) (d : Dict V) → DistinctKeys d → DistinctKeys (Dict.delete k d)
unfolding Dict.delete
delete-DistinctKeys k [] h = tt
delete-DistinctKeys k ((j, x) ∷ d) h = elim (Bool-cases (j == k)) [
  | inl w ↦ rw w (delete-DistinctKeys k d h.1)
  | inr w ↦ rw w (ground (arith, Dict.lookup-delete k j d, h.0), delete-DistinctKeys k d h.1)
]

pub insert-AllFair :
    (k : ℕ) (e : L3Entry) (d : Orders) → Fair e → AllFair d → AllFair (Dict.insert k e d)
unfolding Dict.insert
insert-AllFair k e [] f h = (f, tt)
insert-AllFair k e ((j, x) ∷ d) f h = elim (Bool-cases (j == k)) [
  | inl w ↦ rw w (f, h.1)
  | inr w ↦ rw w (h.0, insert-AllFair k e d f h.1)
]

pub delete-AllFair : (k : ℕ) (d : Orders) → AllFair d → AllFair (Dict.delete k d)
unfolding Dict.delete
delete-AllFair k [] h = tt
delete-AllFair k ((j, x) ∷ d) h = elim (Bool-cases (j == k)) [
  | inl w ↦ rw w (delete-AllFair k d h.1)
  | inr w ↦ rw w (h.0, delete-AllFair k d h.1)
]

pub AllFair-lookup :
    (k : ℕ) (e : L3Entry) (d : Orders) → AllFair d → Dict.lookup k d ≡ some e → Fair e
unfolding Dict.lookup
AllFair-lookup k e [] h w = absurd cc
AllFair-lookup k e ((j, x) ∷ d) h w = elim (Bool-cases (j == k)) [
  | inl z ↦ let same : x ≡ e = ground arith in rw same at h.0
  | inr z ↦ AllFair-lookup k e d h.1 (rw z at w)
]

-- an order's shares are among those of its price
pub resting_covers :
    (k : ℕ) (e : L3Entry) (d : Orders)
    → Dict.lookup k d ≡ some e
    → e.shares ≤ resting e.is_buy e.price d
unfolding resting Dict.lookup
resting_covers k e [] w = absurd cc
resting_covers k e ((j, x) ∷ d) w = elim (Bool-cases (j == k)) [
  | inl z ↦ let same : x ≡ e = ground arith in rw same (omega (arith, own_part e))
  | inr z ↦ omega (arith, resting_covers k e d (rw z at w))
]
