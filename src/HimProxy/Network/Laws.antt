-- ===== src/HimProxy/Network/Laws.antt =====
-- The error codes of network.c name the step that failed, and when the caller's socket is written.
use tpt.Common.{
  ℕ, zero, suc, ◌≡◌, refl, Bool, true, false, not, ◌&&◌, Option, none, some, List, [], ◌∷◌, arith,
  ℤ, minus, is_neg, is_some,
}
use tpt.HimProxy.Network.{
  bad_port, Calls, tcp_bind_and_listen, tcp_connect_to_server, tcp_transparent_connect_to_server,
}

-- The place of the first step that fails, from 1; 0 if none does.
abbrev pub first_failure : List Bool → ℕ
first_failure steps = place 1 steps
  where
    place : ℕ → List Bool → ℕ
    place n [] = 0
    place n (false ∷ steps) = n
    place n (true ∷ steps) = place (suc n) steps

abbrev pub params_ok : (ip : Bool) → (port : ℤ) → (sock : Option ℤ) → Bool
params_ok ip port sock = ip && (not (bad_port port) && is_some sock)

-- tcp_bind_and_listen checks its parameters, makes the socket, reads the address, binds and listens, and
-- returns minus the place of the first of these five that fails, or 0; but it does not notice that there is no socket.
pub tcp_bind_and_listen-first_failure :
    (c : Calls) (ip : Bool) (port : ℤ) (sock : Option ℤ)
    → (tcp_bind_and_listen c ip port sock).0
      ≡ minus (
          first_failure (
            params_ok ip port sock
            ∷ true
            ∷ c.aton
            ∷ not (is_neg c.bind)
            ∷ not (is_neg c.listen)
            ∷ []))
unfolding tcp_bind_and_listen
tcp_bind_and_listen-first_failure c false port none = refl
tcp_bind_and_listen-first_failure c false port (some old) = refl
tcp_bind_and_listen-first_failure c true port none = ground arith
tcp_bind_and_listen-first_failure c true port (some old) = ground arith

-- tcp_connect_to_server checks its parameters, makes the socket, reads the address and connects, and
-- returns minus the place of the first of these four that fails, or 0.
pub tcp_connect_to_server-first_failure :
    (c : Calls) (ip : Bool) (port : ℤ) (sock : Option ℤ)
    → (tcp_connect_to_server c ip port sock).0
      ≡ minus (
          first_failure
            (params_ok ip port sock ∷ not (is_neg c.socket) ∷ c.aton ∷ not (is_neg c.connect) ∷ []))
unfolding tcp_connect_to_server
tcp_connect_to_server-first_failure c false port none = refl
tcp_connect_to_server-first_failure c false port (some old) = refl
tcp_connect_to_server-first_failure c true port none = ground arith
tcp_connect_to_server-first_failure c true port (some old) = ground arith

-- tcp_transparent_connect_to_server has seven steps: the parameters, the socket, its transparency, the
-- client's address, the bind to it, the server's address and the connection. It returns minus the place of the first that
-- fails, or 0, and writes the caller's socket exactly if none fails.
pub tcp_transparent_connect_to_server-first_failure :
    (c : Calls) (ip : Bool) (port : ℤ) (sock : Option ℤ)
    → let steps =
        params_ok ip port sock
        ∷ not (is_neg c.socket)
        ∷ not (is_neg c.transparent)
        ∷ c.client_aton
        ∷ not (is_neg c.bind)
        ∷ c.aton
        ∷ not (is_neg c.connect)
        ∷ [] in
      ((tcp_transparent_connect_to_server c ip port sock).0 ≡ minus (first_failure steps))
      × ((tcp_transparent_connect_to_server c ip port sock).1
          ≡ (elim (first_failure steps) as (λ _. Option ℤ) [ zero ↦ some c.socket | suc _ ↦ sock ]))
unfolding tcp_transparent_connect_to_server
tcp_transparent_connect_to_server-first_failure c false port none = (refl, refl)
tcp_transparent_connect_to_server-first_failure c false port (some old) = (refl, refl)
tcp_transparent_connect_to_server-first_failure c true port none = (ground arith, ground arith)
tcp_transparent_connect_to_server-first_failure c true port (some old) =
    (ground arith, ground arith)
