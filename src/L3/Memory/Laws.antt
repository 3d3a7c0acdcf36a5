-- ===== src/L3/Memory/Laws.antt =====
-- `L3Memory` as a map: its laws.
use nasdaq_itch_parser_order.Prelude.{
  ℕ, ◌≤◌, ◌<◌, ◌≡◌, ◌⊎◌, Option, none, some, [], arith, ◌==◌, if◌then◌else◌, length, length-set,
  get_or-set, is_some, ltb_lt, ltb_le, sym, ◌∙◌, inl, inr, Option-cases,
}
use native.Mathlib.Decide.{dec_lt}
use nasdaq_itch_parser_order.Dict
use nasdaq_itch_parser_order.Dict.{Dict}
use nasdaq_itch_parser_order.Mapping.{IsMap, or_raise}
use nasdaq_itch_parser_order.Structs.{
  L3Entry, Exn, ret, raised, key_error, value_error, ret_injective,
}
use nasdaq_itch_parser_order.L3.Memory.{
  L3Memory, oid_hash, line_of, write_line, has_key, get_item, set_item, del_item, spill, format_int,
  memory_ops,
}
use nasdaq_itch_parser_order.L3.Memory.Slots.{view, IsValid, oid_hash-lt}

-- a write to the line of `k`, read back at the line of `j`
line-write_line :
    (m : L3Memory) (k j : ℕ) (line : Dict L3Entry)
    → IsValid m
    → line_of (write_line k line m) j ≡ (if oid_hash k == oid_hash j then line else line_of m j)
line-write_line m k j line v =
    get_or-set m.ram (oid_hash k) (oid_hash j) line [] (omega (arith, oid_hash-lt k, v.width))

has_view : (m : L3Memory) (k : ℕ) → IsValid m → has_key k m ≡ is_some (view m k)
unfolding has_key view Dict.contains
has_view m k v = ground arith

get_view : (m : L3Memory) (k : ℕ) → IsValid m → get_item k m ≡ or_raise key_error (view m k)
unfolding get_item view Dict.contains
get_view m k v = ground arith

-- a new content for the line of `k`, which differs from the old one at `k` alone
module _ (m : L3Memory) (v : IsValid m) (k : ℕ) (line : Dict L3Entry) (o : Option L3Entry)
    (reads : (j : ℕ)
      → Dict.lookup j line ≡ (if k == j then o else Dict.lookup j (line_of m k))) where
  write_line-view :
      (j : ℕ)
      → Dict.lookup k m.cam ≡ none
      → view (write_line k line m) j ≡ (if k == j then o else view m j)
  unfolding view
  write_line-view j fresh = ground (arith, line-write_line m k j line v, reads j)

  write_line-IsValid : length line ≤ 8 → Dict.lookup k m.cam ≡ none → IsValid (write_line k line m)
  write_line-IsValid fits fresh = record {
    width = ground (arith, length-set m.ram (oid_hash k) line, v.width);
    line_size = λ i. ground (
      arith,
      get_or-set m.ram (oid_hash k) i line [] (omega (arith, oid_hash-lt k, v.width)),
      v.line_size i,
    );
    cam_size = v.cam_size;
    home = λ i j e h. ground (
      arith,
      get_or-set m.ram (oid_hash k) i line [] (omega (arith, oid_hash-lt k, v.width)),
      v.home i j e,
      reads j,
      v.home (oid_hash k) j e,
    );
    apart = λ j e h. ground (arith, line-write_line m k j line v, v.apart j e h, reads j);
  }

-- a new content for the CAM, which differs from the old one at `k` alone, where `k` is in no line
module _ (m : L3Memory) (v : IsValid m) (k : ℕ) (cam : Dict L3Entry) (o : Option L3Entry)
    (reads : (j : ℕ) → Dict.lookup j cam ≡ (if k == j then o else Dict.lookup j m.cam))
    (absent : Dict.lookup k (line_of m k) ≡ none) where
  write_cam-view : (j : ℕ) → view (record m { cam = cam }) j ≡ (if k == j then o else view m j)
  unfolding view
  write_cam-view j = ground (arith, reads j)

  write_cam-IsValid : length cam ≤ 8 → IsValid (record m { cam = cam })
  write_cam-IsValid fits = record {
    width = v.width;
    line_size = v.line_size;
    cam_size = fits;
    home = v.home;
    apart = λ j e h. ground (arith, v.apart j e, reads j);
  }

format_int-cases :
    (spec n : ℕ) → (format_int spec n ≡ ret tt) ⊎ (format_int spec n ≡ raised value_error)
unfolding format_int
format_int-cases spec n = ground arith

-- What a write or a `del` of `k` that leaves `o` there has done when it returns `m'`.
abbrev Writes : L3Memory → ℕ → Option L3Entry → L3Memory → Type 0
Writes m k o m' = IsValid m' × ((j : ℕ) → view m' j ≡ (if k == j then o else view m j))

module _ (m : L3Memory) (v : IsValid m) (k : ℕ) where
  cam_absent : (e : L3Entry) → Dict.lookup k (line_of m k) ≡ some e → Dict.lookup k m.cam ≡ none
  cam_absent e h = elim (Option-cases (Dict.lookup k m.cam)) [
    | inl absent ↦ absent
    | inr (f, there) ↦ cc (v.apart k f there)
  ]

  write_line-Writes :
      (line : Dict L3Entry) (o : Option L3Entry)
      → ((j : ℕ) → Dict.lookup j line ≡ (if k == j then o else Dict.lookup j (line_of m k)))
      → length line ≤ 8
      → Dict.lookup k m.cam ≡ none
      → Writes m k o (write_line k line m)
  write_line-Writes line o reads fits fresh = (
    write_line-IsValid m v k line o reads fits fresh,
    λ j. write_line-view m v k line o reads j fresh,
  )

  write_cam-Writes :
      (cam : Dict L3Entry) (o : Option L3Entry)
      → ((j : ℕ) → Dict.lookup j cam ≡ (if k == j then o else Dict.lookup j m.cam))
      → Dict.lookup k (line_of m k) ≡ none
      → length cam ≤ 8
      → Writes m k o (record m { cam = cam })
  write_cam-Writes cam o reads absent fits =
      (write_cam-IsValid m v k cam o reads absent fits, write_cam-view m v k cam o reads absent)

  spill-Writes :
      (e : L3Entry) (m' : L3Memory)
      → Dict.lookup k (line_of m k) ≡ none
      → Dict.lookup k m.cam ≡ none
      → spill k e m ≡ ret m'
      → Writes m k (some e) m'
  unfolding spill
  spill-Writes e m' absent fresh h =
      let fits : length m.cam < 8 = ground (arith, format_int-cases b'h' (oid_hash k)) in
      let e' : m' ≡ record m { cam = Dict.insert k e m.cam } =
        ground (arith, format_int-cases b'h' (oid_hash k)) in
      rw e' (
        write_cam-Writes (Dict.insert k e m.cam) (some e) (λ j. Dict.lookup-insert k j e m.cam)
          absent (omega (arith, Dict.length-insert_new k e m.cam fresh)))

  -- the four ways of a write
  set_item-line :
      (e old : L3Entry)
      → Dict.lookup k (line_of m k) ≡ some old
      → set_item k e m ≡ ret (write_line k (Dict.insert k e (line_of m k)) m)
  unfolding set_item Dict.contains
  set_item-line e old h = rw h

  set_item-cam :
      (e old : L3Entry)
      → Dict.lookup k (line_of m k) ≡ none
      → Dict.lookup k m.cam ≡ some old
      → set_item k e m ≡ ret (record m { cam = Dict.insert k e m.cam })
  unfolding set_item Dict.contains
  set_item-cam e old h g = rw (h, g)

  pub set_item-room :
      (e : L3Entry)
      → Dict.lookup k (line_of m k) ≡ none
      → Dict.lookup k m.cam ≡ none
      → length (line_of m k) < 8
      → set_item k e m ≡ ret (write_line k (Dict.insert k e (line_of m k)) m)
  unfolding set_item Dict.contains
  set_item-room e h g room = rw (h, g, ltb_lt _ _ room)

  pub set_item-full :
      (e : L3Entry)
      → Dict.lookup k (line_of m k) ≡ none
      → Dict.lookup k m.cam ≡ none
      → 8 ≤ length (line_of m k)
      → set_item k e m ≡ spill k e m
  unfolding set_item Dict.contains
  set_item-full e h g full = rw (h, g, ltb_le _ _ full)

  set_item-Writes : (e : L3Entry) (m' : L3Memory) → set_item k e m ≡ ret m' → Writes m k (some e) m'
  set_item-Writes e m' h = elim (Option-cases (Dict.lookup k (line_of m k))) [
    | inr (old, there) ↦ rw (ret_injective (sym h ∙ set_item-line e old there)) (
        write_line-Writes _ (some e) (λ j. Dict.lookup-insert k j e (line_of m k))
          (omega
            (arith, Dict.length-insert_old k e old (line_of m k) there, v.line_size (oid_hash k)))
          (cam_absent old there))
    | inl absent ↦ elim (Option-cases (Dict.lookup k m.cam)) [
      | inr (old, there) ↦ rw (ret_injective (sym h ∙ set_item-cam e old absent there)) (
          write_cam-Writes _ (some e) (λ j. Dict.lookup-insert k j e m.cam) absent
            (omega (arith, Dict.length-insert_old k e old m.cam there, v.cam_size)))
      | inl fresh ↦ elim (dec_lt (length (line_of m k)) 8) [
        | yes room ↦ rw (ret_injective (sym h ∙ set_item-room e absent fresh room)) (
            write_line-Writes _ (some e) (λ j. Dict.lookup-insert k j e (line_of m k))
              (omega (arith, Dict.length-insert_new k e (line_of m k) absent)) fresh)
        | no full ↦
            spill-Writes e m' absent fresh (sym (set_item-full e absent fresh (omega arith)) ∙ h)
      ]
    ]
  ]

  set_item-raised : (e : L3Entry) (x : Exn) → set_item k e m ≡ raised x → view m k ≡ none
  unfolding set_item view Dict.contains
  set_item-raised e x h = ground arith

  del_item-line :
      (old : L3Entry)
      → Dict.lookup k (line_of m k) ≡ some old
      → del_item k m ≡ ret (write_line k (Dict.delete k (line_of m k)) m)
  unfolding del_item Dict.contains
  del_item-line old h = rw h

  -- a `del` that returns has found its key in the line or in the CAM
  del_item-cam :
      (m' : L3Memory)
      → Dict.lookup k (line_of m k) ≡ none
      → del_item k m ≡ ret m'
      → m' ≡ record m { cam = Dict.delete k m.cam }
  unfolding del_item Dict.contains
  del_item-cam m' h d = ground arith

  del_item-Writes : (m' : L3Memory) → del_item k m ≡ ret m' → Writes m k none m'
  del_item-Writes m' h = elim (Option-cases (Dict.lookup k (line_of m k))) [
    | inr (old, there) ↦ rw (ret_injective (sym h ∙ del_item-line old there)) (
        write_line-Writes _ none (λ j. Dict.lookup-delete k j (line_of m k))
          (omega (arith, Dict.length-delete-le k (line_of m k), v.line_size (oid_hash k)))
          (cam_absent old there))
    | inl absent ↦ rw (del_item-cam m' absent h) (
        write_cam-Writes _ none (λ j. Dict.lookup-delete k j m.cam) absent
          (omega (arith, Dict.length-delete-le k m.cam, v.cam_size)))
  ]

  del_item-raised : (x : Exn) → del_item k m ≡ raised x → view m k ≡ none
  unfolding del_item view Dict.contains
  del_item-raised x h = ground arith

-- The table of lines with its CAM is a finite map: tests and reads show the order stored under a key,
-- writes and deletions that succeed act on it as on a map and keep the lines and the CAM well formed,
-- and a write or a deletion raises only at a key that is not there.
pub memory_ops-IsMap : IsMap memory_ops IsValid view
memory_ops-IsMap = record {
  has_view = has_view;
  get_view = get_view;
  set_valid = λ m m' k e v h. (set_item-Writes m v k e m' h).0;
  set_view = λ m m' k j e v h. (set_item-Writes m v k e m' h).1 j;
  set_raised = λ m k e x v h. set_item-raised m v k e x h;
  del_valid = λ m m' k v h. (del_item-Writes m v k m' h).0;
  del_view = λ m m' k j v h. (del_item-Writes m v k m' h).1 j;
  del_raised = λ m k x v h. del_item-raised m v k x h;
}
