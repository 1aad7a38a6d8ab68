-- ===== src/Prober/Access.antt =====
-- Who can make the prober send a request.
use Prim.Native.String.{String}
use text.Mathlib.Text.{◌==◌ as str_eq}
use text.Mathlib.TextEquality.{eq_iff}
use ncdn.Base.{◌≡◌, refl, ap, some-injective, Bool-cases, Sum-cases, some, inl, inr, ◌⊎◌}
use ncdn.Popcache.Http.{Header, get}
use ncdn.Types.{ProbeArgs}
use ncdn.Prober.{Probing, concat, probe, probe_reply, handle_probe}

-- A URL is probed only for a POST with the bearer token, whose body was read and decodes to arguments
-- with that URL; the reply is then that of the probe.
pub handle_probe-authorized :
    (p : Probing) (secret method : String) (header : Header) (body : String ⊎ String) (url : String)
    → (handle_probe p secret method header body).0 ≡ some url
    → (method ≡ "POST")
      × (get header "Authorization" ≡ concat "Bearer " secret)
      × ((bs : String) × (args : ProbeArgs) × (body ≡ inl bs)
          × (p.unmarshal_args bs ≡ inl args)
          × (args.target_url ≡ url))
      × ((handle_probe p secret method header body).1 ≡ probe_reply p (probe p url))
unfolding handle_probe
handle_probe-authorized p secret method header (inr e) url h =
    elim (Bool-cases (str_eq method "POST")) [
      | inr other ↦ absurd (cc (rw (other, handle_probe) at h))
      | inl post ↦
          elim (Bool-cases (str_eq (get header "Authorization") (concat "Bearer " secret))) [
            | inr other ↦ absurd (cc (rw (post, other, handle_probe) at h))
            | inl token ↦ absurd (cc (rw (post, token, handle_probe) at h))
          ]
    ]
handle_probe-authorized p secret method header (inl bs) url h =
    elim (Bool-cases (str_eq method "POST")) [
      | inr other ↦ absurd (cc (rw (other, handle_probe) at h))
      | inl post ↦
          elim (Bool-cases (str_eq (get header "Authorization") (concat "Bearer " secret))) [
            | inr other ↦ absurd (cc (rw (post, other, handle_probe) at h))
            | inl token ↦ elim (Sum-cases (p.unmarshal_args bs)) [
              | inr (e, bad) ↦ absurd (cc (rw (post, token, bad, handle_probe) at h))
              | inl (args, decoded) ↦
                  let same = some-injective (rw (post, token, decoded, handle_probe) at h) in
                  (
                    (eq_iff method "POST").0 post,
                    (eq_iff (get header "Authorization") (concat "Bearer " secret)).0 token,
                    (bs, args, refl, decoded, same),
                    rw (post, token, decoded, handle_probe)
                        (ap (λ u. probe_reply p (probe p u)) same),
                  )
            ]
          ]
    ]
