-- ===== src/L4lb/GenBindings/Emit/Typed.antt =====
-- The parser makes fields of Go types only, so the template of gen_bindings.go does not fail.
use Prim.Native.String.{String}
use text.Mathlib.Text.{◌==◌ as str_eq}
use ncdn.Base.{
  ℕ, ◌≡◌, refl, sym, arith, true, false, Option, List, [], ◌∷◌, ◌⊎◌, inl, inr, All, All-append,
  Bool-cases, Option-cases, Sum-cases, subst, inl-injective,
}
use ncdn.Base.Int.{ℤ, pos, negsuc, leb_ℤ}
use ncdn.L4lb.GenBindings.{
  CField, CStruct, CFile, Scan, Parser, ParserState, no_extract, in_struct, uint_field, typed_field,
  parse_array_size, parse_c_field, add_directives, new_struct, parse_begin, parse_outside,
  parse_field, parse_inside, parse_line, parse_lines, new_parser, parse_c_source, line_of,
}

-- A width of a Go integer, in bytes.
abbrev pub IsWidth : ℕ → Type 0
IsWidth n = (n ≡ 1) ⊎ (n ≡ 2) ⊎ (n ≡ 4) ⊎ (n ≡ 8)

abbrev pub IsTyped : CField → Type 0
IsTyped f = (f.type ≡ "uint") × IsWidth f.size × (n : ℕ) × (f.array_size ≡ pos n)

abbrev pub AllTyped : List CStruct → Type 0
AllTyped = All (λ c. All IsTyped c.fields)

abbrev IsSound : Parser → Type 0
IsSound p = AllTyped p.parsed.c_structs × All IsTyped p.current_struct.fields

nonneg : (n : ℤ) → leb_ℤ n (pos 0) ≡ false → (m : ℕ) × (n ≡ pos m)
nonneg (pos m) h = (m, refl)
nonneg (negsuc m) h = absurd (ground arith)

parse_array_size-pos :
    (s : Scan) (t : String) (n : ℤ) → parse_array_size s t ≡ inl n → (m : ℕ) × (n ≡ pos m)
unfolding parse_array_size
parse_array_size-pos s t n h = elim (Bool-cases (str_eq t "")) [
  | inl e ↦ let k = rw e at h in (0, cc)
  | inr e ↦
      let k = rw e at h in
      elim (Sum-cases (s.atoi t)) [
        | inr (x, f) ↦ let k2 = rw f at k in absurd (cc)
        | inl (m, f) ↦
            let k2 = rw f at k in
            elim (Bool-cases (leb_ℤ m (pos 0))) [
              | inl g ↦ let k3 = rw g at k2 in absurd (cc)
              | inr g ↦ let k3 = rw g at k2 in let (i, same) = nonneg m g in (i, cc)
            ]
      ]
]

uint_field-IsTyped :
    (name : String) (n : ℕ) (line : String) (size : ℕ) (f : CField)
    → IsWidth size
    → uint_field name (pos n) line size ≡ inl f
    → IsTyped f
uint_field-IsTyped name n line size f w h = subst IsTyped (inl-injective h) (refl, w, n, refl)

typed_field-IsTyped :
    (typ name : String) (n : ℕ) (line : String) (f : CField)
    → typed_field typ name (pos n) line ≡ inl f
    → IsTyped f
unfolding typed_field
typed_field-IsTyped typ name n line f h = elim (Bool-cases (str_eq typ "uint8_t")) [
  | inl e ↦ uint_field-IsTyped name n line 1 f (inl refl) (rw e at h)
  | inr e ↦ elim (Bool-cases (str_eq typ "uint16_t")) [
    | inl e2 ↦ uint_field-IsTyped name n line 2 f (inr (inl refl)) (rw (e, e2) at h)
    | inr e2 ↦ elim (Bool-cases (str_eq typ "uint32_t")) [
      | inl e3 ↦ uint_field-IsTyped name n line 4 f (inr (inr (inl refl))) (rw (e, e2, e3) at h)
      | inr e3 ↦ elim (Bool-cases (str_eq typ "uint64_t")) [
        | inl e4 ↦
            uint_field-IsTyped name n line 8 f (inr (inr (inr refl))) (rw (e, e2, e3, e4) at h)
        | inr e4 ↦ let k = rw (e, e2, e3, e4) at h in absurd (cc)
      ]
    ]
  ]
]

parse_c_field-IsTyped :
    (s : Scan) (typ name size line : String) (f : CField)
    → parse_c_field s typ name size line ≡ inl f
    → IsTyped f
unfolding parse_c_field
parse_c_field-IsTyped s typ name size line f h = elim (Sum-cases (parse_array_size s size)) [
  | inr (e, x) ↦ let k = rw (x, parse_c_field) at h in absurd (cc)
  | inl (n, x) ↦
      let (m, same) = parse_array_size-pos s size n x in
      typed_field-IsTyped typ name m line f (rw (x, same, parse_c_field) at h)
]

add_directives-fields :
    (c c' : CStruct) (ds : List String) → add_directives c ds ≡ inl c' → c'.fields ≡ c.fields
unfolding add_directives
add_directives-fields c c' [] h = cc
add_directives-fields c c' (d ∷ ds) h = elim (Bool-cases (str_eq d "Add")) [
  | inl e ↦
      add_directives-fields (record c { derive_add = true }) c' ds (rw (add_directives, e) at h)
  | inr e ↦ elim (Bool-cases (str_eq d "Equals")) [
    | inl e2 ↦
        add_directives-fields (record c { derive_equals = true }) c' ds
          (rw (add_directives, e, e2) at h)
    | inr e2 ↦ elim (Bool-cases (str_eq d "String")) [
      | inl e3 ↦
          add_directives-fields (record c { derive_string = true }) c' ds
            (rw (add_directives, e, e2, e3) at h)
      | inr e3 ↦ elim (Bool-cases (str_eq d "")) [
        | inl e4 ↦ add_directives-fields c c' ds (rw (add_directives, e, e2, e3, e4) at h)
        | inr e4 ↦ let k = rw (add_directives, e, e2, e3, e4) at h in absurd (cc)
      ]
    ]
  ]
]

module _ (s : Scan) where
  parse_begin-IsSound :
      (p p' : Parser) (line : String) → IsSound p → parse_begin s p line ≡ inl p' → IsSound p'
  unfolding parse_begin
  parse_begin-IsSound p p' line h e = elim (Option-cases (s.struct_begin line)) [
    | inl none_at ↦ subst IsSound (inl-injective (rw (none_at, parse_begin) at e)) h
    | inr ((name, ds), at) ↦
        let made = new_struct name (line_of s p) in
        elim (Sum-cases (add_directives made (s.split ds))) [
          | inr (x, bad) ↦ let k = rw (at, bad, parse_begin) at e in absurd (cc)
          | inl (c, good) ↦
              let fields : All IsTyped c.fields =
                subst (All IsTyped) (sym (add_directives-fields made c (s.split ds) good)) tt in
              subst IsSound (inl-injective (rw (at, good, parse_begin) at e)) (h.0, fields)
        ]
  ]

  parse_outside-IsSound :
      (p p' : Parser) (line : String) → IsSound p → parse_outside s p line ≡ inl p' → IsSound p'
  unfolding parse_outside
  parse_outside-IsSound p p' line h e = elim (Option-cases (s.define_const line)) [
    | inl none_at ↦ parse_begin-IsSound p p' line h (rw (none_at, parse_outside) at e)
    | inr ((name, digits), at) ↦ elim (Sum-cases (s.atoi digits)) [
      | inr (x, bad) ↦ let k = rw (at, bad, parse_outside) at e in absurd (cc)
      | inl (v, good) ↦ subst IsSound (inl-injective (rw (at, good, parse_outside) at e)) h
    ]
  ]

  parse_field-IsSound :
      (p p' : Parser) (line : String) → IsSound p → parse_field s p line ≡ inl p' → IsSound p'
  unfolding parse_field
  parse_field-IsSound p p' line h e = elim (Option-cases (s.struct_field line)) [
    | inl none_at ↦ subst IsSound (inl-injective (rw (none_at, parse_field) at e)) h
    | inr ((typ, name, size, help), at) ↦
        elim (Sum-cases (parse_c_field s typ name size (line_of s p))) [
          | inr (x, bad) ↦ let k = rw (at, bad, parse_field) at e in absurd (cc)
          | inl (f, good) ↦ subst IsSound (inl-injective (rw (at, good, parse_field) at e)) (
            h.0,
            All-append IsTyped p.current_struct.fields _ h.1
                (parse_c_field-IsTyped s typ name size (line_of s p) f good, tt),
          )
        ]
  ]

  parse_inside-IsSound :
      (p p' : Parser) (line : String) → IsSound p → parse_inside s p line ≡ inl p' → IsSound p'
  unfolding parse_inside
  parse_inside-IsSound p p' line h e = elim (Bool-cases (s.struct_end line)) [
    | inl ends ↦
        subst IsSound (inl-injective (rw (ends, parse_inside) at e))
          (All-append (λ c. All IsTyped c.fields) p.parsed.c_structs _ h.0 (h.1, tt), tt)
    | inr goes ↦ parse_field-IsSound p p' line h (rw (goes, parse_inside) at e)
  ]

  parse_line-IsSound :
      (t : ParserState) (p p' : Parser) (line : String)
      → IsSound p
      → parse_line s t p line ≡ inl p'
      → IsSound p'
  unfolding parse_line
  parse_line-IsSound no_extract p p' line h e = parse_outside-IsSound _ p' line h e
  parse_line-IsSound in_struct p p' line h e = parse_inside-IsSound _ p' line h e

  parse_lines-IsSound :
      (p p' : Parser) (ls : List String) → IsSound p → parse_lines s p ls ≡ inl p' → IsSound p'
  unfolding parse_lines
  parse_lines-IsSound p p' [] h e = subst IsSound (inl-injective e) h
  parse_lines-IsSound p p' (l ∷ ls) h e = elim (Sum-cases (parse_line s p.state p l)) [
    | inr (x, bad) ↦ let k = rw (bad, parse_lines) at e in absurd (cc)
    | inl (q, good) ↦
        parse_lines-IsSound q p' ls (parse_line-IsSound p.state p q l h good)
          (rw (good, parse_lines) at e)
  ]

  pub parse_c_source-AllTyped :
      (filename : String) (ls : List String) (error : Option String) (c : CFile)
      → parse_c_source s filename ls error ≡ inl c
      → AllTyped c.c_structs
  unfolding parse_c_source
  parse_c_source-AllTyped filename ls error c e =
      elim (Sum-cases (parse_lines s (new_parser s filename) ls)) [
        | inr (x, bad) ↦ let k = rw (bad, parse_c_source) at e in absurd (cc)
        | inl (p, good) ↦
            let sound = parse_lines-IsSound (new_parser s filename) p ls (tt, tt) good in
            elim (Option-cases error) [
              | inl fine ↦
                  subst (λ c. AllTyped c.c_structs)
                    (inl-injective (rw (good, fine, parse_c_source) at e)) sound.0
              | inr (x, bad) ↦ let k = rw (good, bad, parse_c_source) at e in absurd (cc)
            ]
      ]
