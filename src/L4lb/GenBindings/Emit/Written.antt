-- ===== src/L4lb/GenBindings/Emit/Written.antt =====
-- What a run of gen_bindings.go ends with.
use Prim.Native.Char.{Char}
use Prim.Native.String.{String}
use ncdn.Base.{
  ℕ, zero, suc, ◌<◌, ◌*◌, ◌≡◌, refl, arith, true, none, some, List, [], ◌∷◌, ◌⊎◌, inl, inr, ltb,
  All, All-map, Option-cases, Sum-cases, subst, inl-injective,
}
use ncdn.L4lb.GenBindings.{concat, CField, CStruct, CFile, Scan, go_type}
use ncdn.L4lb.GenBindings.Template.{
  try_each, checked_go_type, field_text, struct_text, file_text, go_template,
}
use ncdn.L4lb.GenBindings.Emit.{
  PathLib, Files, not_written, write_failed, written, assert_layouts_func_name, go_target_filename,
  failed_to_emit, read_c_source, read_sources, emit_bindings_go, run,
}
use ncdn.L4lb.GenBindings.Emit.Typed.{IsWidth, IsTyped, parse_c_source-AllTyped}

-- A field's Go type: an unsigned integer of 8, 16, 32 or 64 bits, or an array of at least one of them.
abbrev pub IsGoTyped : (ℕ → String) → CField → Type 0
IsGoTyped decimal f =
    (bits : ℕ) × ((bits ≡ 8) ⊎ (bits ≡ 16) ⊎ (bits ≡ 32) ⊎ (bits ≡ 64))
    × ((checked_go_type decimal f ≡ inl (concat "uint" (decimal bits)))
        ⊎ ((n : ℕ) × (0 < n)
            × (checked_go_type decimal f
                ≡ inl
                    (concat "[" (concat (decimal n) (concat "]" (concat "uint" (decimal bits))))))))

abbrev pub AllGoTyped : (ℕ → String) → CFile → Type 0
AllGoTyped decimal c = All (λ st. All (IsGoTyped decimal) st.fields) c.c_structs

try_each-total {ℓ} :
    {A : Type ℓ} (P : A → Type 0) (f : A → String ⊎ String)
    → ((x : A) → P x → (t : String) × (f x ≡ inl t))
    → (xs : List A) → All P xs
    → (t : String) × (try_each f xs ≡ inl t)
unfolding try_each
try_each-total P f h [] all = ("", refl)
try_each-total P f h (x ∷ xs) all =
    let (t, e) = h x all.0 in
    let (ts, es) = try_each-total P f h xs all.1 in (concat t ts, rw (e, es, try_each) refl)

bits_of : (n : ℕ) → IsWidth n → (n * 8 ≡ 8) ⊎ (n * 8 ≡ 16) ⊎ (n * 8 ≡ 32) ⊎ (n * 8 ≡ 64)
bits_of n w = ground arith

module _ (decimal : ℕ → String) (to_upper : Char → Char) where
  IsTyped-IsGoTyped : (f : CField) → IsTyped f → IsGoTyped decimal f
  unfolding checked_go_type go_type
  IsTyped-IsGoTyped f (is_uint, w, zero, at) =
      (f.size * 8, bits_of f.size w, inl (rw (checked_go_type, go_type, is_uint, at) refl))
  IsTyped-IsGoTyped f (is_uint, w, suc n, at) =
      let positive : ltb 0 (suc n) ≡ true = ground arith in
      (
        f.size * 8,
        bits_of f.size w,
        inr (suc n, omega arith, rw (checked_go_type, go_type, is_uint, at, positive) refl),
      )

  go_typed : (f : CField) → IsGoTyped decimal f → (t : String) × (checked_go_type decimal f ≡ inl t)
  go_typed f (bits, w, inl e) = (_, e)
  go_typed f (bits, w, inr (n, more, e)) = (_, e)

  field_text-total :
      (f : CField) → IsGoTyped decimal f → (t : String) × (field_text decimal to_upper f ≡ inl t)
  unfolding field_text
  field_text-total f h =
      let (t, e) = go_typed f h in
      elim (Sum-cases (field_text decimal to_upper f)) [
        | inl made ↦ made
        | inr (m, bad) ↦ let k = rw (field_text, e) at bad in absurd (cc)
      ]

  struct_text-total :
      (c : CStruct)
      → All (IsGoTyped decimal) c.fields
      → (t : String) × (struct_text decimal to_upper c ≡ inl t)
  unfolding struct_text
  struct_text-total c h =
      let (t, e) =
        try_each-total (IsGoTyped decimal) (field_text decimal to_upper) field_text-total c.fields
          h in
      elim (Sum-cases (struct_text decimal to_upper c)) [
        | inl made ↦ made
        | inr (m, bad) ↦ let k = rw (struct_text, e) at bad in absurd (cc)
      ]

  file_text-total :
      (name : String → String) (c : CFile)
      → AllGoTyped decimal c
      → (t : String) × (file_text decimal to_upper name c ≡ inl t)
  unfolding file_text
  file_text-total name c h =
      let (t, e) =
        try_each-total (λ st. All (IsGoTyped decimal) st.fields) (struct_text decimal to_upper)
          struct_text-total c.c_structs h in
      elim (Sum-cases (file_text decimal to_upper name c)) [
        | inl made ↦ made
        | inr (m, bad) ↦ let k = rw (file_text, e) at bad in absurd (cc)
      ]

  go_template-total :
      (name : String → String) (cs : List CFile)
      → All (AllGoTyped decimal) cs
      → (t : String) × (go_template decimal to_upper name cs ≡ inl t)
  unfolding go_template
  go_template-total name cs h =
      let (t, e) =
        try_each-total (AllGoTyped decimal) (file_text decimal to_upper name) (file_text-total name)
          cs h in
      elim (Sum-cases (go_template decimal to_upper name cs)) [
        | inl made ↦ made
        | inr (m, bad) ↦ let k = rw (go_template, e) at bad in absurd (cc)
      ]

module _ (s : Scan) (to_upper : Char → Char) (p : PathLib) (f : Files) where
  read_c_source-AllGoTyped :
      (filename : String) (c : CFile)
      → read_c_source s to_upper p f filename ≡ inl c
      → AllGoTyped s.decimal c
  unfolding read_c_source
  read_c_source-AllGoTyped filename c h = elim (Sum-cases (f.open_file filename)) [
    | inr (e, bad) ↦ let k = rw (bad, read_c_source) at h in absurd (cc)
    | inl ((lines, error), good) ↦
        All-map _ _
          (λ st.
            All-map IsTyped (IsGoTyped s.decimal) (IsTyped-IsGoTyped s.decimal to_upper) st.fields)
          c.c_structs
          (parse_c_source-AllTyped s filename lines error c (rw (good, read_c_source) at h))
  ]

  read_sources-AllGoTyped :
      (filenames : List String) (cs : List CFile)
      → read_sources s to_upper p f filenames ≡ inl cs
      → All (AllGoTyped s.decimal) cs
  unfolding read_sources
  read_sources-AllGoTyped [] cs h = subst (All (AllGoTyped s.decimal)) (inl-injective h) tt
  read_sources-AllGoTyped (n ∷ ns) cs h = elim (Sum-cases (read_c_source s to_upper p f n)) [
    | inr (e, bad) ↦ let k = rw (bad, read_sources) at h in absurd (cc)
    | inl (c, good) ↦ elim (Sum-cases (read_sources s to_upper p f ns)) [
      | inr (e, bad) ↦ let k = rw (good, bad, read_sources) at h in absurd (cc)
      | inl (rest, fine) ↦
          subst (All (AllGoTyped s.decimal)) (inl-injective (rw (good, fine, read_sources) at h))
            (read_c_source-AllGoTyped n c good, read_sources-AllGoTyped ns rest fine)
    ]
  ]

  -- What `run` writes of the files that it has read, or why it could not be written.
  abbrev pub IsWritten : List String → List CFile → String → Type 0
  IsWritten filenames cs t =
      (go_template s.decimal to_upper (assert_layouts_func_name p) cs ≡ inl t)
      × (((f.write_file go_target_filename t ≡ none) × (run s to_upper p f filenames ≡ written t))
          ⊎ ((e : String) × (f.write_file go_target_filename t ≡ some e)
              × (run s to_upper p f filenames ≡ write_failed (failed_to_emit e))))

  emit_bindings_go-IsWritten :
      (filenames : List String) (cs : List CFile) (t : String)
      → read_sources s to_upper p f filenames ≡ inl cs
      → go_template s.decimal to_upper (assert_layouts_func_name p) cs ≡ inl t
      → IsWritten filenames cs t
  unfolding run emit_bindings_go
  emit_bindings_go-IsWritten filenames cs t read made =
      elim (Option-cases (f.write_file go_target_filename t)) [
        | inl fine ↦ (made, inl (fine, rw (run, read, emit_bindings_go, made, fine) refl))
        | inr (e, bad) ↦ (made, inr (e, bad, rw (run, read, emit_bindings_go, made, bad) refl))
      ]

  -- A run of the generator over any files either ends with the error of reading them, and writes
  -- nothing; or it has read them all, each field of their structs has the Go type of an unsigned
  -- integer of 8, 16, 32 or 64 bits or of an array of at least one of these, the template succeeds, and
  -- what it gives is written, unless the writing of the file fails.
  pub run-Written :
      (filenames : List String)
      → ((e : String) × (read_sources s to_upper p f filenames ≡ inr e)
          × (run s to_upper p f filenames ≡ not_written e))
        ⊎ ((cs : List CFile) × (t : String) × (read_sources s to_upper p f filenames ≡ inl cs)
            × All (AllGoTyped s.decimal) cs
            × IsWritten filenames cs t)
  unfolding run
  run-Written filenames = elim (Sum-cases (read_sources s to_upper p f filenames)) [
    | inr (e, bad) ↦ inl (e, bad, rw (run, bad) refl)
    | inl (cs, read) ↦
        let typed = read_sources-AllGoTyped filenames cs read in
        let (t, made) =
          go_template-total s.decimal to_upper (assert_layouts_func_name p) cs typed in
        inr (cs, t, read, typed, emit_bindings_go-IsWritten filenames cs t read made)
  ]
