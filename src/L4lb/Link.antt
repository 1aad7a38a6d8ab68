-- ===== src/L4lb/Link.antt =====
-- l4lb/l4lbdrv/link.go: `LinkAttacher`, its watcher and `Close`, as steps that interleave. The calls
-- of netlink are parameters; `n` is the moment of a call, which its answer can depend on.
mod Watch
pub mod Own
mod Tests
use Prim.Native.String.{String}
use ncdn.Base.{ℕ, ◌≡◌, Bool, true, false, Option, none, some, ◌⊎◌, inl, inr}
use ncdn.Base.Int.{ℤ, negsuc}

-- `LinkSetXdpFd` and `LinkSetXdpFdWithFlags` with `XDP_FLAGS_UPDATE_IF_NOEXIST`, from the program of
-- the interface to the program after the call, with its error.
pub record Netlink : Type 0 where
  pub set_xdp_fd : ℕ → ℤ → Option ℤ → Option ℤ × Option String
  pub update_if_noexist : ℕ → ℤ → Option ℤ → Option ℤ × Option String

-- How far a `Close` is: it closes the channel, detaches, and forgets the link.
pub data Closing : Type 0 where
  not_closing : Closing
  detaching : Closing
  forgetting : Closing

-- `LinkAttacher`: whether `attachedLink` is set and whether `linkCheckDone` is closed; the program of
-- the interface; and the `Close` that is running. `fd` is that of the watcher: the field is never set.
pub record LinkAttacher : Type 0 where
  pub fd : ℤ
  pub has_link : Bool
  pub done : Bool
  pub prog : Option ℤ
  pub closing : Closing

-- `AttachToLink`
unfoldable pub attach_to_link : Netlink → ℕ → ℤ → Option ℤ → LinkAttacher ⊎ String
attach_to_link nl n fd prog =
    let done = nl.set_xdp_fd n fd prog in
    elim done.1 [
      | some e ↦ inr e
      | none ↦
          inl (record {
            fd = fd;
            has_link = true;
            done = false;
            prog = done.0;
            closing = not_closing;
          })
    ]

-- A round of the watcher on a tick, with the error of the call; `none` is a call with a nil link.
unfoldable pub tick : Netlink → ℕ → LinkAttacher → Option (LinkAttacher × Option String)
tick nl n a = elim a.has_link [
  | false ↦ none
  | true ↦
      let called = nl.update_if_noexist n a.fd a.prog in
      some (record a { prog = called.0 }, called.1)
]

-- The beginning of `Close`, when there is a link: `none` is the panic of closing a channel twice.
unfoldable pub close_done : LinkAttacher → Option LinkAttacher
close_done a = elim a.done [
  | true ↦ none
  | false ↦ some (record a { done = true; closing = detaching })
]

-- The call of `Close`, which on an error returns it and keeps the link.
unfoldable pub detach : Netlink → ℕ → LinkAttacher → LinkAttacher × Option String
detach nl n a =
    let called = nl.set_xdp_fd n (negsuc 0) a.prog in
    elim called.1 [
      | some e ↦ (record a { prog = called.0; closing = not_closing }, some e)
      | none ↦ (record a { prog = called.0; closing = forgetting }, none)
    ]

-- The end of `Close`.
abbrev pub forget : LinkAttacher → LinkAttacher
forget a = record a { has_link = false; closing = not_closing }

-- The steps: of the watcher, which a closed channel only wakes up; of `Close`; and of an interface
-- that loses or gets a program by itself.
pub data Step (nl : Netlink) : LinkAttacher → LinkAttacher → Type 0 where
  on_tick :
      {a b : LinkAttacher} (n : ℕ) (e : Option String) → tick nl n a ≡ some (b, e) → Step nl a b
  on_done : {a : LinkAttacher} → a.done ≡ true → Step nl a a
  on_close :
      {a b : LinkAttacher}
      → a.has_link ≡ true
      → a.closing ≡ not_closing
      → close_done a ≡ some b
      → Step nl a b
  on_detach : {a : LinkAttacher} (n : ℕ) → a.closing ≡ detaching → Step nl a (detach nl n a).0
  on_forget : {a : LinkAttacher} → a.closing ≡ forgetting → Step nl a (forget a)
  on_change : {a : LinkAttacher} (prog : Option ℤ) → Step nl a (record a { prog = prog })

-- The states that an attacher gets into.
pub data Reachable (nl : Netlink) : LinkAttacher → Type 0 where
  attached :
      {a : LinkAttacher} (n : ℕ) (fd : ℤ) (prog : Option ℤ)
      → attach_to_link nl n fd prog ≡ inl a
      → Reachable nl a
  stepped : {a b : LinkAttacher} → Reachable nl a → Step nl a b → Reachable nl b
