-- ===== src/Mapping.antt =====
-- The `MutableMapping` protocol that `L3` and `L2` use a memory through: `in`, `m[k]`, `m[k] = v`
-- and `del m[k]`, with the laws that make a memory a finite map; and Python's own dict.
use nasdaq_itch_parser_order.Prelude.{
  ℕ, ◌≡◌, refl, Bool, Option, none, some, arith, ◌==◌, if◌then◌else◌, is_some,
}
use nasdaq_itch_parser_order.Dict
use nasdaq_itch_parser_order.Dict.{Dict}
use nasdaq_itch_parser_order.Structs.{Exn, Outcome, ret, raised, key_error}

pub record Mapping (M V : Type 0) : Type 0 where
  pub has_key : ℕ → M → Bool
  pub get_item : ℕ → M → Outcome V
  pub set_item : ℕ → V → M → Outcome M
  pub del_item : ℕ → M → Outcome M

abbrev pub or_raise {ℓ} : {A : Type ℓ} → Exn → Option A → Outcome A
or_raise e none = raised e
or_raise e (some a) = ret a

-- What a memory in a valid state shows at each key, and that each operation acts on it as on a
-- map. A write may raise, for want of room, but only at a key that is not there.
pub record IsMap {M V : Type 0} (ops : Mapping M V) (IsValid : M → Type 0) (view : M → ℕ → Option V)
    : Type 0 where
  pub has_view : (m : M) (k : ℕ) → IsValid m → ops.has_key k m ≡ is_some (view m k)
  pub get_view : (m : M) (k : ℕ) → IsValid m → ops.get_item k m ≡ or_raise key_error (view m k)
  pub set_valid : (m m' : M) (k : ℕ) (v : V) → IsValid m → ops.set_item k v m ≡ ret m' → IsValid m'
  pub set_view :
      (m m' : M) (k j : ℕ) (v : V)
      → IsValid m
      → ops.set_item k v m ≡ ret m'
      → view m' j ≡ (if k == j then some v else view m j)
  pub set_raised :
      (m : M) (k : ℕ) (v : V) (e : Exn)
      → IsValid m
      → ops.set_item k v m ≡ raised e
      → view m k ≡ none
  pub del_valid : (m m' : M) (k : ℕ) → IsValid m → ops.del_item k m ≡ ret m' → IsValid m'
  pub del_view :
      (m m' : M) (k j : ℕ)
      → IsValid m
      → ops.del_item k m ≡ ret m'
      → view m' j ≡ (if k == j then none else view m j)
  pub del_raised :
      (m : M) (k : ℕ) (e : Exn) → IsValid m → ops.del_item k m ≡ raised e → view m k ≡ none

-- `{}`, the memory of the ideal model
module _ {V : Type 0} where
  abbrev pub dict_ops : Mapping (Dict V) V
  dict_ops = record {
    has_key = Dict.contains;
    get_item = λ k d. or_raise key_error (Dict.lookup k d);
    set_item = λ k v d. ret (Dict.insert k v d);
    del_item = λ k d. if Dict.contains k d then ret (Dict.delete k d) else raised key_error;
  }

  dict_has : (d : Dict V) (k : ℕ) → Dict.contains k d ≡ is_some (Dict.lookup k d)
  unfolding Dict.contains
  dict_has d k = refl

  dict_del : (d d' : Dict V) (k : ℕ) → dict_ops.del_item k d ≡ ret d' → d' ≡ Dict.delete k d
  dict_del d d' k h = ground arith

  dict_del_raised :
      (d : Dict V) (k : ℕ) (e : Exn) → dict_ops.del_item k d ≡ raised e → Dict.lookup k d ≡ none
  unfolding Dict.contains
  dict_del_raised d k e h = ground arith

  -- A dict is a map, whatever it holds.
  pub dict_ops-IsMap : IsMap dict_ops (λ d. Unit {0}) (λ d k. Dict.lookup k d)
  dict_ops-IsMap = record {
    has_view = λ d k h. dict_has d k;
    get_view = λ d k h. refl;
    set_valid = λ d d' k v h e. tt;
    set_view = λ d d' k j v h e. ground (arith, Dict.lookup-insert k j v d);
    set_raised = λ d k v x h e. cc;
    del_valid = λ d d' k h e. tt;
    del_view = λ d d' k j h e. ground (arith, dict_del d d' k e, Dict.lookup-delete k j d);
    del_raised = λ d k x h e. dict_del_raised d k x e;
  }
