-- ===== src/L4lb/Link/Tests.antt =====
-- An attacher whose program is lost, and the next two ticks, the first of which fails.
use Prim.Native.String.{String}
use ncdn.Base.{ℕ, zero, suc, ◌+◌, ◌≡◌, ◌⊎◌, refl, arith, true, false, Option, none, some, ◌<◌}
use ncdn.Base.Int.{ℤ, pos, negsuc}
use ncdn.L4lb.Link.{Netlink, LinkAttacher, not_closing, attach_to_link, on_change}
use ncdn.L4lb.Link.Own.{IsNetlink, Runs, attaches, continues, ticks, ticks-program}

-- The program of a descriptor, and none for -1.
abbrev set : ℤ → Option ℤ
set (pos fd) = some (pos fd)
set (negsuc _) = none

-- The program that stays, with an error; or the new one, which is not taken at moment 0.
abbrev update : ℕ → ℤ → Option ℤ → Option ℤ × Option String
update zero fd none = (none, some "EIO")
update (suc n) fd none = (some fd, none)
update n fd (some q) = (some q, some "EBUSY")

abbrev netlink : Netlink
netlink = record { set_xdp_fd = λ n fd prog. (set fd, none); update_if_noexist = update }

update-puts :
    (n fd : ℕ) → (update n (pos fd) none).1 ≡ none → (update n (pos fd) none).0 ≡ some (pos fd)
update-puts zero fd e = absurd (cc)
update-puts (suc n) fd e = refl

update-occupied : (n fd : ℕ) (q : ℤ) → (e : String) × ((update n (pos fd) (some q)).1 ≡ some e)
update-occupied zero fd q = ("EBUSY", refl)
update-occupied (suc n) fd q = ("EBUSY", refl)

update-failed :
    (n : ℕ) (fd : ℤ) (prog : Option ℤ) (e : String)
    → (update n fd prog).1 ≡ some e
    → (update n fd prog).0 ≡ prog
update-failed zero fd none e failed = refl
update-failed (suc n) fd none e failed = absurd (cc)
update-failed zero fd (some q) e failed = refl
update-failed (suc n) fd (some q) e failed = refl

netlink-IsNetlink : IsNetlink netlink
netlink-IsNetlink = record {
  attaches = λ n fd prog fine. refl;
  detaches = λ n prog fine. refl;
  set_failed = λ n fd prog e failed. absurd (cc);
  puts = update-puts;
  occupied = update-occupied;
  update_failed = update-failed;
}

abbrev lost : LinkAttacher
lost = record { fd = pos 7; has_link = true; done = false; prog = none; closing = not_closing }

lost-Runs : Runs netlink 7 lost
unfolding attach_to_link
lost-Runs =
    continues (attaches {a = record lost { prog = some (pos 7) }} 0 none refl) (on_change none) refl

ticks-program_example :
    ((lost.prog ≡ none) ⊎ (lost.prog ≡ some (pos 7)))
    × ((k i n : ℕ)
        → lost.done ≡ false
        → i < k
        → (update (n + i) (pos 7) none).1 ≡ none
        → (b : LinkAttacher) × (ticks netlink k n lost ≡ some b) × (b.prog ≡ some (pos 7)))
ticks-program_example = ticks-program netlink 7 lost netlink-IsNetlink lost-Runs

-- The second of two ticks is in time.
back : (b : LinkAttacher) × (ticks netlink 2 0 lost ≡ some b) × (b.prog ≡ some (pos 7))
back = ticks-program_example.1 2 1 0 refl (omega arith) refl
