-- ===== src/ProxyOld/Core/Laws.antt =====
-- Every client that a child process accepts is registered or closed.
use tpt.Common.{
  ℕ, ◌≡◌, refl, ap, ◌∙◌, Bool, true, false, not, ◌&&◌, List, [], ◌∷◌, ◌++◌, ℤ, pos, minus, is_neg,
  if◌then◌else◌, Bool-cases, inl, inr, and_left, and_right,
}
use mathlib.Core.List.{append-nil, append_assoc}
use tpt.HimProxy.{done, running}
use tpt.ProxyOld.Core.{
  Accepted, add_to_request_poller, Accept, interrupted, broken, accepted, Child, after_add,
  accept_loop, start_proxy,
}

-- What accept returns until it fails but by EINTR.
abbrev pub clients : List Accept → List Accepted
clients [] = []
clients (interrupted ∷ rs) = clients rs
clients (broken ∷ rs) = []
clients (accepted a ∷ rs) = a ∷ clients rs

-- Whether it does.
abbrev pub fails : List Accept → Bool
fails [] = false
fails (interrupted ∷ rs) = fails rs
fails (broken ∷ rs) = true
fails (accepted a ∷ rs) = fails rs

-- Whether the socket can be made non-blocking and registered.
abbrev pub good : Accepted → Bool
good a = not (is_neg a.non_blocking) && not (is_neg a.added)

abbrev pub socks_of : (which : Accepted → Bool) → List Accepted → List ℕ
socks_of which [] = []
socks_of which (a ∷ xs) = if which a then a.sock ∷ socks_of which xs else socks_of which xs

-- calloc finds memory for each client.
abbrev pub memory_for : List Accepted → Bool
memory_for [] = true
memory_for (a ∷ xs) = a.memory && memory_for xs

-- The child behind these clients.
abbrev pub served : List Accepted → Child → Child
served xs c = record {
  registered = c.registered ++ socks_of good xs;
  closed = c.closed ++ socks_of (λ a. not (good a)) xs;
}

-- One client is served.
after_add-served :
    (a : Accepted) (c : Child)
    → a.memory ≡ true
    → (r : ℤ × Bool) × (add_to_request_poller a ≡ done r)
      × (after_add a.sock r c ≡ served (a ∷ []) c)
unfolding add_to_request_poller after_add
after_add-served a c memory = elim (Bool-cases (is_neg a.non_blocking)) [
  | inl bad ↦ ((minus 1, false), rw bad refl, rw (bad, append-nil c.registered) refl)
  | inr fine ↦ elim (Bool-cases (is_neg a.added)) [
    | inl bad ↦ (
      (minus 1, false),
      rw (fine, memory, bad) refl,
      rw (fine, bad, append-nil c.registered) refl,
    )
    | inr added ↦
        ((pos 0, true), rw (fine, memory, added) refl, rw (fine, added, append-nil c.closed) refl)
  ]
]

socks_of-cons :
    (before : List ℕ) (which : Accepted → Bool) (a : Accepted) (xs : List Accepted)
    → (before ++ socks_of which (a ∷ [])) ++ socks_of which xs ≡ before ++ socks_of which (a ∷ xs)
socks_of-cons before which a xs = elim (Bool-cases (which a)) [
  | inl taken ↦ rw taken (append_assoc before (a.sock ∷ []) (socks_of which xs))
  | inr left ↦ rw (left, append-nil before) refl
]

served-append :
    (a : Accepted) (xs : List Accepted) (c : Child)
    → served xs (served (a ∷ []) c) ≡ served (a ∷ xs) c
served-append a xs c i = record {
  registered = socks_of-cons c.registered good a xs i;
  closed = socks_of-cons c.closed (λ b. not (good b)) a xs i;
}

accept_loop-served :
    (rs : List Accept) (c : Child)
    → memory_for (clients rs) ≡ true
    → accept_loop rs c ≡ (if fails rs then done (served (clients rs) c) else running)
unfolding accept_loop
accept_loop-served [] c memory = refl
accept_loop-served (interrupted ∷ rs) c memory = accept_loop-served rs c memory
accept_loop-served (broken ∷ rs) c memory = rw (append-nil c.registered, append-nil c.closed) refl
accept_loop-served (accepted a ∷ rs) c memory =
    let (r, e, here) = after_add-served a c (and_left _ _ memory) in
    rw (accept_loop, e)
      (accept_loop-served rs (after_add a.sock r c) (and_right a.memory _ memory)
        ∙ ap (λ (c' : Child). if fails rs then done (served (clients rs) c') else running) here
        ∙ ap (λ (c' : Child). if fails rs then done c' else running)
            (served-append a (clients rs) c))

-- A child process that is set up, and whose callocs find memory, accepts clients until accept fails with an
-- error other than EINTR. Then each client's socket, in order, is registered with the poller if it
-- could be made non-blocking and registered, and is closed if not; no socket is both or neither.
pub start_proxy-served :
    (signals init : ℤ) (rs : List Accept) (c : Child)
    → is_neg signals ≡ false
    → is_neg init ≡ false
    → memory_for (clients rs) ≡ true
    → start_proxy signals init rs c ≡ (if fails rs then done (served (clients rs) c) else running)
unfolding start_proxy
start_proxy-served signals init rs c set_up started memory =
    rw (set_up, started) (accept_loop-served rs c memory)
