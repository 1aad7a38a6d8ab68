-- ===== src/L4lb/Dwarf/Assert.antt =====
-- What the layout assertions accept.
use Prim.Native.String.{String}
use ncdn.Base.{
  ℕ, ◌≡◌, refl, sym, subst, some-injective, ==_iff, ap, ◌∙◌, Bool-cases, Option, none, some,
  Option-cases, List, [], ◌∷◌, inl, inr, All, ◌==◌, ◌↔◌,
}
use ncdn.Base.Int.{ℤ}
use ncdn.Base.Maps.{find_entry}
use ncdn.L4lb.Dwarf.Read.{CStruct, IsBetween, entries_of, structs_of, read_entries-structs_of}
use ncdn.L4lb.Dwarf.{
  Entry, read_entries, start, DwarfStruct, Structs, uintptr, offset_of, assert_offsets,
  assert_layout, lb_assert_layout, stat_counters_offsets, lb_config_offsets,
  stat_counters_assert_layout, lb_config_assert_layout,
}

-- The struct is there with the size, and the offsets are those of Go as unsigned words.
abbrev pub HasLayout : Option DwarfStruct → ℕ → List (String × ℕ) → Type 0
HasLayout found size offsets =
    (s : DwarfStruct) × (found ≡ some s)
    × (size ≡ uintptr s.size)
    × All (λ field. field.1 ≡ uintptr (offset_of s.fields field.0)) offsets

assert_offsets_iff :
    (fields : List (String × ℤ)) (offsets : List (String × ℕ))
    → (assert_offsets fields offsets ≡ none)
      ↔ All (λ field. field.1 ≡ uintptr (offset_of fields field.0)) offsets
unfolding assert_offsets
assert_offsets_iff fields [] = ((λ e. tt), (λ h. refl))
assert_offsets_iff fields ((name, offset) ∷ offsets) =
    elim (Bool-cases (offset == uintptr (offset_of fields name))) [
      | inl same ↦
          let rest = assert_offsets_iff fields offsets in
          rw (same, assert_offsets)
            (
              (λ e. ((==_iff offset (uintptr (offset_of fields name))).0 same, rest.0 e)),
              (λ h. rest.1 h.1),
            )
      | inr other ↦
          rw (other, assert_offsets)
            (
              (λ e. absurd (cc)),
              (λ h. absurd (cc (other, (==_iff offset (uintptr (offset_of fields name))).1 h.0))),
            )
    ]

assert_layout_iff :
    (size : ℕ) (offsets : List (String × ℕ)) (found : Option DwarfStruct)
    → (assert_layout size offsets found ≡ none) ↔ HasLayout found size offsets
unfolding assert_layout
assert_layout_iff size offsets none = ((λ e. absurd (cc)), (λ h. absurd (cc (h.1))))
assert_layout_iff size offsets (some s) = elim (Bool-cases (size == uintptr s.size)) [
  | inl same ↦
      let offsets_iff = assert_offsets_iff s.fields offsets in
      rw (same, assert_layout)
        (
          (λ e. (s, refl, (==_iff size (uintptr s.size)).0 same, offsets_iff.0 e)),
          (λ h. offsets_iff.1 (
              subst
                (λ (z : DwarfStruct).
                  All (λ field. field.1 ≡ uintptr (offset_of z.fields field.0)) offsets)
                (sym (some-injective h.1)) h.3)),
        )
  | inr other ↦
      rw (other, assert_layout)
        (
          (λ e. absurd (cc)),
          (λ h. absurd (
              cc (
                other,
                (==_iff size (uintptr s.size)).1
                    (h.2 ∙ ap (λ (z : DwarfStruct). uintptr z.size) (sym (some-injective h.1))),
              ))),
        )
]

-- Both assertions.
pub lb_assert_layout_iff :
    (m : Structs)
    → (lb_assert_layout m ≡ none) ↔ (
        HasLayout (find_entry "stat_counters" m) 72 stat_counters_offsets
        × HasLayout (find_entry "lb_config" m) 8 lb_config_offsets)
unfolding lb_assert_layout stat_counters_assert_layout lb_config_assert_layout
lb_assert_layout_iff m =
    let counters = assert_layout_iff 72 stat_counters_offsets (find_entry "stat_counters" m) in
    let config = assert_layout_iff 8 lb_config_offsets (find_entry "lb_config" m) in
    elim (Option-cases (stat_counters_assert_layout (find_entry "stat_counters" m))) [
      | inr (e, bad) ↦
          rw (bad, lb_assert_layout) ((λ h. absurd (cc)), (λ h. absurd (cc (bad, counters.1 h.0))))
      | inl good ↦ elim (Option-cases (lb_config_assert_layout (find_entry "lb_config" m))) [
        | inr (e, bad) ↦
            rw (good, bad, lb_assert_layout)
              ((λ h. absurd (cc)), (λ h. absurd (cc (bad, config.1 h.1))))
        | inl fine ↦
            rw (good, fine, lb_assert_layout) ((λ h. (counters.0 good, config.0 fine)), (λ h. refl))
      ]
    ]

-- The entries of structs that have no struct or union inside, with any entries but those of structs
-- between them, are read back, each name with the size and the offsets of its last struct. The layouts
-- are then accepted exactly when there are both structs, `stat_counters` of 72 bytes and `lb_config`
-- of 8, with every field at the offset that the Go struct has; a field that is missing counts as one at
-- offset 0.
pub read_entries-lb_assert_layout :
    (cs : List (List Entry × CStruct))
    → All (λ c. All IsBetween c.0) cs
    → (read_entries start (entries_of cs) ≡ inl (structs_of [] cs))
      × ((lb_assert_layout (structs_of [] cs) ≡ none) ↔ (
          HasLayout (find_entry "stat_counters" (structs_of [] cs)) 72 stat_counters_offsets
          × HasLayout (find_entry "lb_config" (structs_of [] cs)) 8 lb_config_offsets))
read_entries-lb_assert_layout cs between =
    (read_entries-structs_of cs between, lb_assert_layout_iff (structs_of [] cs))
