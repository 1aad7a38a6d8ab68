-- ===== src/L4lb/Link/Watch.antt =====
-- Until `Close` begins, the watcher has a link.
use Prim.Native.String.{String}
use ncdn.Base.{
  ℕ, ◌≡◌, refl, ap, subst, some-injective, inl-injective, true, false, Bool-cases, Option, some,
  Option-cases, inl, inr,
}
use ncdn.Base.Int.{negsuc}
use ncdn.L4lb.Link.{
  Netlink, not_closing, detaching, LinkAttacher, attach_to_link, tick, close_done, detach, Step,
  on_tick, on_done, on_close, on_detach, on_forget, on_change, Reachable, attached, stepped,
}

-- Until the channel is closed there is a link, and no `Close` runs.
abbrev pub Open : LinkAttacher → Type 0
Open a = a.done ≡ false → (a.has_link ≡ true) × (a.closing ≡ not_closing)

module _ (nl : Netlink) where
  tick-Open :
      (a b : LinkAttacher) (n : ℕ) (e : Option String) → tick nl n a ≡ some (b, e) → Open a → Open b
  unfolding tick
  tick-Open a b n e made h = elim (Bool-cases a.has_link) [
    | inr nil ↦ absurd (cc (rw (nil, tick) at made))
    | inl link ↦
        let same =
          ap (λ (z : LinkAttacher × Option String). z.0)
            (some-injective (rw (link, tick) at made)) in
        subst Open same h
  ]

  detach-Open : (a : LinkAttacher) (n : ℕ) → a.closing ≡ detaching → Open a → Open (detach nl n a).0
  unfolding detach
  detach-Open a n busy h = elim (Option-cases (nl.set_xdp_fd n (negsuc 0) a.prog).1) [
    | inr (e, failed) ↦ rw (failed, detach) (λ open_yet. absurd (cc (busy, (h open_yet).1)))
    | inl done ↦ rw (done, detach) (λ open_yet. absurd (cc (busy, (h open_yet).1)))
  ]

  Open-Step : {a b : LinkAttacher} → Step nl a b → Open a → Open b
  unfolding close_done
  Open-Step (on_tick {a} {b} n e made) h = tick-Open a b n e made h
  Open-Step (on_done closed) h = h
  Open-Step (on_close {a} {b} link idle made) h = elim (Bool-cases a.done) [
    | inl closed ↦ absurd (cc (rw (closed, close_done) at made))
    | inr open_yet ↦
        subst Open (some-injective (rw (open_yet, close_done) at made)) (λ e. absurd (cc e))
  ]
  Open-Step (on_detach {a} n busy) h = detach-Open a n busy h
  Open-Step (on_forget busy) h = λ open_yet. absurd (cc (busy, (h open_yet).1))
  Open-Step (on_change prog) h = h

  -- Before `Close` begins, there is a link.
  pub Open-Reachable : {a : LinkAttacher} → Reachable nl a → Open a
  unfolding attach_to_link
  Open-Reachable (attached {a} n fd prog made) = elim (Option-cases (nl.set_xdp_fd n fd prog).1) [
    | inr (e, failed) ↦ absurd (cc (rw (failed, attach_to_link) at made))
    | inl done ↦ subst Open (inl-injective (rw (done, attach_to_link) at made)) (λ e. (refl, refl))
  ]
  Open-Reachable (stepped before step) = Open-Step step (Open-Reachable before)
