-- ===== src/L4lb/Driver/Kept.antt =====
-- The driver over maps on which no put fails: no tick has an error, and `New` returns a driver that
-- takes every destination to be alive.
use Prim.Native.String.{String}
use ncdn.Base.{
  u32, ℕ, ◌+◌, ◌≤◌, ◌^◌, ◌≡◌, ◌⊎◌, refl, sym, ap, ◌∙◌, some-injective, inl-injective, Bool, false,
  Option, none, some, List, [], ◌∷◌, inl, inr, ltb, ◌==◌, length, length-replicate, replicate,
  Bool-cases, Option-cases, Sum-cases,
}
use ncdn.Netip.{Addr}
use ncdn.L4lb.Table.{alive_dests, build_table}
use ncdn.L4lb.Driver.{
  Ebpf, L4lb, Error, Config, maglev_table_size, health_check_all, put_values, populate_lookup_table,
  generate_offsets, generate_skips, tick, new, sync, initial, finish,
}
use ncdn.L4lb.Driver.Lookup.{IsStore}
use ncdn.L4lb.Driver.Tick.{populate-InStep, sync-slots}

-- No put fails.
abbrev pub NeverFails : Ebpf → Type 0
NeverFails e = (ms : e.Maps) (k v : ℕ) → (e.put ms k v).1 ≡ none

module _ (e : Ebpf) (laws : IsStore e) (never : NeverFails e) (hash : Addr → ℕ) where
  put_values-NeverFails : (ms : e.Maps) (i : ℕ) (vs : List ℕ) → (put_values e ms i vs).1 ≡ none
  unfolding put_values
  put_values-NeverFails ms i [] = refl
  put_values-NeverFails ms i (v ∷ vs) =
      rw (never ms (u32 i) v, put_values) (put_values-NeverFails (e.put ms (u32 i) v).0 (i + 1) vs)

  populate-NeverFails :
      (lb lb' : L4lb e) (err : Option Error)
      → populate_lookup_table e hash lb ≡ some (lb', err)
      → err ≡ none
  unfolding populate_lookup_table
  populate-NeverFails lb lb' err h = elim (Bool-cases (alive_dests lb.dead_dests == 0)) [
    | inl gone ↦ ap (λ (x : L4lb e × Option Error). x.1) (sym (some-injective (rw gone at h)))
    | inr left ↦
        elim (Option-cases (
          build_table maglev_table_size (length lb.cfg.dests) lb.dead_dests
            (generate_offsets hash lb.cfg.dests) (generate_skips hash lb.cfg.dests))) [
              | inl endless ↦ absurd (cc (rw (left, endless, populate_lookup_table) at h))
              | inr (st, built) ↦
                  ap (λ (x : L4lb e × Option Error). x.1)
                    (sym (some-injective (rw (left, built, populate_lookup_table) at h)))
                  ∙ put_values-NeverFails _ _ _
            ]
  ]

  pub tick-NeverFails :
      (lb lb' : L4lb e) (answers : List (ℕ × Bool)) (err : Option Error)
      → tick e hash lb answers ≡ some (lb', err)
      → err ≡ none
  unfolding tick
  tick-NeverFails lb lb' answers err h = elim (Bool-cases (health_check_all e lb answers).1) [
    | inl changed ↦ populate-NeverFails (health_check_all e lb answers).0 lb' err (rw changed at h)
    | inr same ↦ ap (λ (x : L4lb e × Option Error). x.1) (sym (some-injective (rw same at h)))
  ]

  finish-flags :
      (attached : Option String) (lb lb' : L4lb e) (err : Option Error)
      → finish e attached (lb, err) ≡ inl lb'
      → lb'.dead_dests ≡ lb.dead_dests
  unfolding finish
  finish-flags attached lb lb' (some err) h = absurd (cc)
  finish-flags (some t) lb lb' none h = absurd (cc)
  finish-flags none lb lb' none h = elim (Option-cases (sync e lb).1) [
    | inl fine ↦
        let same : (sync e lb).0 ≡ lb' = inl-injective (rw (fine, finish) at h) in
        ap (λ (x : L4lb e). x.dead_dests) (sym same)
        ∙ ap (λ (x : L4lb e). x.dead_dests) (sync-slots e laws hash lb).0
    | inr (t, failed) ↦ absurd (cc (rw (failed, finish) at h))
  ]

  pub new-flags :
      (cfg : Config) (bound : e.Maps ⊎ String) (attached : Option String) (lb : L4lb e)
      → length cfg.dests ≤ 2 ^ 32
      → new e hash cfg bound attached ≡ some (inl lb)
      → lb.dead_dests ≡ replicate (length cfg.dests) false
  unfolding new
  new-flags cfg bound attached lb few h = elim (Bool-cases (ltb (length cfg.dests) 2)) [
    | inl short ↦ absurd (cc (rw (short, new) at h))
    | inr enough ↦ elim (Sum-cases bound) [
      | inr (t, failed) ↦ absurd (cc (rw (enough, failed, new) at h))
      | inl (ms, loaded) ↦
          let (lb1, err, ends, _, flags, _) =
            populate-InStep e laws hash (initial e cfg ms)
              (length-replicate (length cfg.dests) false) few in
          finish-flags attached lb1 lb err (some-injective (rw (enough, loaded, ends, new) at h))
          ∙ flags
    ]
  ]
