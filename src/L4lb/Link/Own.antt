-- ===== src/L4lb/Link/Own.antt =====
-- What the watcher of link.go does for its program.
use Prim.Native.String.{String}
use ncdn.Base.{
  ℕ, ◌≡◌, refl, ap, subst, sym, ◌∙◌, ◌⊎◌, zero, suc, ◌+◌, ◌<◌, arith, some-injective, inl-injective,
  true, false, Bool-cases, Option, none, some, Option-cases, inl, inr,
}
use ncdn.Base.Int.{ℤ, pos, negsuc}
use ncdn.L4lb.Link.{
  Netlink, LinkAttacher, attach_to_link, tick, close_done, detach, Step, on_tick, on_done, on_close,
  on_detach, on_forget, on_change, Reachable, attached, stepped,
}
use ncdn.L4lb.Link.Watch.{Open-Reachable}

-- What the kernel does with XDP programs: a call without an error puts the program, or detaches it for
-- the descriptor -1; a call with an error changes nothing; and `XDP_FLAGS_UPDATE_IF_NOEXIST` is an error
-- where there is a program.
pub record IsNetlink (nl : Netlink) : Type 0 where
  pub attaches :
      (n fd : ℕ) (prog : Option ℤ)
      → (nl.set_xdp_fd n (pos fd) prog).1 ≡ none
      → (nl.set_xdp_fd n (pos fd) prog).0 ≡ some (pos fd)
  pub detaches :
      (n : ℕ) (prog : Option ℤ)
      → (nl.set_xdp_fd n (negsuc 0) prog).1 ≡ none
      → (nl.set_xdp_fd n (negsuc 0) prog).0 ≡ none
  pub set_failed :
      (n : ℕ) (fd : ℤ) (prog : Option ℤ) (e : String)
      → (nl.set_xdp_fd n fd prog).1 ≡ some e
      → (nl.set_xdp_fd n fd prog).0 ≡ prog
  pub puts :
      (n fd : ℕ)
      → (nl.update_if_noexist n (pos fd) none).1 ≡ none
      → (nl.update_if_noexist n (pos fd) none).0 ≡ some (pos fd)
  pub occupied :
      (n fd : ℕ) (q : ℤ) → (e : String) × ((nl.update_if_noexist n (pos fd) (some q)).1 ≡ some e)
  pub update_failed :
      (n : ℕ) (fd : ℤ) (prog : Option ℤ) (e : String)
      → (nl.update_if_noexist n fd prog).1 ≡ some e
      → (nl.update_if_noexist n fd prog).0 ≡ prog

module _ (nl : Netlink) where
  -- Some ticks in a row, from a moment on.
  unfoldable pub ticks : ℕ → ℕ → LinkAttacher → Option LinkAttacher
  ticks zero n a = some a
  ticks (suc k) n a = elim (tick nl n a) [ none ↦ none | some (b, _) ↦ ticks k (n + 1) b ]

  -- Nothing from outside puts a program on the interface.
  abbrev pub OnlyLoses : {a b : LinkAttacher} → Step nl a b → Type 0
  OnlyLoses (on_tick n e made) = Unit {0}
  OnlyLoses (on_done closed) = Unit {0}
  OnlyLoses (on_close link idle made) = Unit {0}
  OnlyLoses (on_detach n busy) = Unit {0}
  OnlyLoses (on_forget busy) = Unit {0}
  OnlyLoses (on_change prog) = prog ≡ none

  -- The states after `AttachToLink` of `fd`, while the interface may lose its program at any time.
  pub data Runs (fd : ℕ) : LinkAttacher → Type 0 where
    attaches :
        {a : LinkAttacher} (n : ℕ) (prog : Option ℤ)
        → attach_to_link nl n (pos fd) prog ≡ inl a
        → Runs fd a
    continues : {a b : LinkAttacher} → Runs fd a → (step : Step nl a b) → OnlyLoses step → Runs fd b

  Runs-Reachable : {fd : ℕ} {a : LinkAttacher} → Runs fd a → Reachable nl a
  Runs-Reachable {fd} (attaches n prog made) = attached n (pos fd) prog made
  Runs-Reachable (continues before step only) = stepped (Runs-Reachable before) step

  -- The watcher's descriptor is `fd`, and the interface has its program or none.
  abbrev HasOwn : ℕ → LinkAttacher → Type 0
  HasOwn fd a = (a.fd ≡ pos fd) × ((a.prog ≡ none) ⊎ (a.prog ≡ some (pos fd)))

  module _ (is : IsNetlink nl) (fd : ℕ) where
    update-HasOwn :
        (n : ℕ) (prog : Option ℤ)
        → (prog ≡ none) ⊎ (prog ≡ some (pos fd))
        → ((nl.update_if_noexist n (pos fd) prog).0 ≡ none)
          ⊎ ((nl.update_if_noexist n (pos fd) prog).0 ≡ some (pos fd))
    update-HasOwn n prog h = elim (Option-cases (nl.update_if_noexist n (pos fd) prog).1) [
      | inr (e, failed) ↦ rw (is.update_failed n (pos fd) prog e failed) h
      | inl fine ↦ elim h [
        | inl gone ↦ inr (rw gone (is.puts n fd (rw gone at fine)))
        | inr own ↦
            let (e, busy) = is.occupied n fd (pos fd) in
            let busy' : (nl.update_if_noexist n (pos fd) prog).1 ≡ some e = rw own busy in
            absurd (cc)
      ]
    ]

    -- A tick with a link.
    abbrev after_tick : LinkAttacher → ℕ → LinkAttacher
    after_tick a n = record a { prog = (nl.update_if_noexist n a.fd a.prog).0 }

    tick-linked :
        (a : LinkAttacher) (n : ℕ)
        → a.has_link ≡ true
        → tick nl n a ≡ some (after_tick a n, (nl.update_if_noexist n a.fd a.prog).1)
    unfolding tick
    tick-linked a n link = simp (link, tick)

    after_tick-HasOwn : (a : LinkAttacher) (n : ℕ) → HasOwn fd a → HasOwn fd (after_tick a n)
    after_tick-HasOwn a n (same, h) = (same, rw same (update-HasOwn n a.prog h))

    tick-HasOwn :
        (a b : LinkAttacher) (n : ℕ) (e : Option String)
        → tick nl n a ≡ some (b, e)
        → HasOwn fd a
        → HasOwn fd b
    unfolding tick
    tick-HasOwn a b n e made h = elim (Bool-cases a.has_link) [
      | inr nil ↦ absurd (cc (rw (nil, tick) at made))
      | inl link ↦
          let same =
            ap (λ (z : LinkAttacher × Option String). z.0)
              (some-injective (sym (tick-linked a n link) ∙ made)) in
          subst (HasOwn fd) same (after_tick-HasOwn a n h)
    ]

    detach-HasOwn : (a : LinkAttacher) (n : ℕ) → HasOwn fd a → HasOwn fd (detach nl n a).0
    unfolding detach
    detach-HasOwn a n (same, h) = elim (Option-cases (nl.set_xdp_fd n (negsuc 0) a.prog).1) [
      | inr (e, failed) ↦
          rw (failed, detach) (same, rw (is.set_failed n (negsuc 0) a.prog e failed) h)
      | inl fine ↦ rw (fine, detach) (same, inl (is.detaches n a.prog fine))
    ]

    close_done-HasOwn : (a b : LinkAttacher) → close_done a ≡ some b → HasOwn fd a → HasOwn fd b
    unfolding close_done
    close_done-HasOwn a b made h = elim (Bool-cases a.done) [
      | inl closed ↦ absurd (cc (rw (closed, close_done) at made))
      | inr open_yet ↦ subst (HasOwn fd) (some-injective (rw (open_yet, close_done) at made)) h
    ]

    HasOwn-Step :
        {a b : LinkAttacher} (step : Step nl a b) → OnlyLoses step → HasOwn fd a → HasOwn fd b
    HasOwn-Step (on_tick {a} {b} n e made) only h = tick-HasOwn a b n e made h
    HasOwn-Step (on_done closed) only h = h
    HasOwn-Step (on_close {a} {b} link idle made) only h = close_done-HasOwn a b made h
    HasOwn-Step (on_detach {a} n busy) only h = detach-HasOwn a n h
    HasOwn-Step (on_forget busy) only h = h
    HasOwn-Step (on_change prog) only h = (h.0, inl only)

    HasOwn-Runs : {a : LinkAttacher} → Runs fd a → HasOwn fd a
    unfolding attach_to_link
    HasOwn-Runs (attaches {a} n prog made) = elim (Option-cases (nl.set_xdp_fd n (pos fd) prog).1) [
      | inr (e, failed) ↦ absurd (cc (rw (failed, attach_to_link) at made))
      | inl fine ↦
          subst (HasOwn fd) (inl-injective (rw (fine, attach_to_link) at made))
            (refl, inr (is.attaches n fd prog fine))
    ]
    HasOwn-Runs (continues before step only) = HasOwn-Step step only (HasOwn-Runs before)

    -- The program that is there is kept by the next ticks.
    ticks-own :
        (k n : ℕ) (a : LinkAttacher)
        → a.has_link ≡ true
        → a.fd ≡ pos fd
        → a.prog ≡ some (pos fd)
        → (b : LinkAttacher) × (ticks k n a ≡ some b) × (b.prog ≡ some (pos fd))
    unfolding ticks
    ticks-own zero n a link same own = (a, refl, own)
    ticks-own (suc k) n a link same own =
        let (e, busy) = is.occupied n fd (pos fd) in
        let kept : (after_tick a n).prog ≡ some (pos fd) =
          rw (same, own) (is.update_failed n (pos fd) (some (pos fd)) e busy) in
        let (b, made, there) = ticks-own k (n + 1) (after_tick a n) link same kept in
        (b, rw (tick-linked a n link, ticks) made, there)

    ticks-back :
        (k i n : ℕ) (a : LinkAttacher)
        → a.has_link ≡ true
        → HasOwn fd a
        → i < k
        → (nl.update_if_noexist (n + i) (pos fd) none).1 ≡ none
        → (b : LinkAttacher) × (ticks k n a ≡ some b) × (b.prog ≡ some (pos fd))
    unfolding ticks
    ticks-back zero i n a link h lt fine = absurd (omega arith)
    ticks-back (suc k) i n a link (same, inr own) lt fine = ticks-own (suc k) n a link same own
    ticks-back (suc k) zero n a link (same, inl gone) lt fine =
        let n0 : n + 0 ≡ n = omega arith in
        let put : (after_tick a n).prog ≡ some (pos fd) =
          rw (same, gone) (is.puts n fd (rw n0 at fine)) in
        let (b, made, there) = ticks-own k (n + 1) (after_tick a n) link same put in
        (b, rw (tick-linked a n link, ticks) made, there)
    ticks-back (suc k) (suc i) n a link (same, inl gone) lt fine =
        let next : n + suc i ≡ n + 1 + i = omega arith in
        let (b, made, there) =
          ticks-back k i (n + 1) (after_tick a n) link (after_tick-HasOwn a n (same, inl gone))
            (omega arith) (rw next at fine) in
        (b, rw (tick-linked a n link, ticks) made, there)

  -- Over the kernel's handling of XDP programs: after `AttachToLink` of a descriptor that is not
  -- negative, in any order of the steps of the watcher, of `Close` and of losses of the program, while
  -- nothing else puts a program there, the interface has the program of this descriptor or none. Before
  -- `Close` begins, ticks have a link to call with; and after any number of them in a row, of which one
  -- comes at a moment when the kernel takes the program, the interface has the program again, also when
  -- the others fail.
  pub ticks-program :
      (fd : ℕ) (a : LinkAttacher)
      → IsNetlink nl
      → Runs fd a
      → ((a.prog ≡ none) ⊎ (a.prog ≡ some (pos fd)))
        × ((k i n : ℕ)
            → a.done ≡ false
            → i < k
            → (nl.update_if_noexist (n + i) (pos fd) none).1 ≡ none
            → (b : LinkAttacher) × (ticks k n a ≡ some b) × (b.prog ≡ some (pos fd)))
  ticks-program fd a is run =
      let own = HasOwn-Runs is fd run in
      (
        own.1,
        λ k i n open_yet lt fine.
            ticks-back is fd k i n a (Open-Reachable nl (Runs-Reachable run) open_yet).0 own lt
              fine,
      )
