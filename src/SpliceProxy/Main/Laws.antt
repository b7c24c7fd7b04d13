-- ===== src/SpliceProxy/Main/Laws.antt =====
-- Where each accepted socket goes.
use tpt.Common.{
  ℕ, ◌≡◌, refl, ◌∙◌, List, [], ◌∷◌, ◌++◌, pos, is_neg, int_eq, Bool-cases, inl, inr, if◌then◌else◌,
}
use tpt.SpliceProxy.Main.{Accept, failed, accepted, Clients, accept_client, accept_loop}
use mathlib.Core.List.{append_assoc, append-nil}

-- A client that main has closed, and one that the work queue has refused.
abbrev pub to_closed : Accept → List ℕ
to_closed failed = []
to_closed (accepted sock non_blocking add) = if is_neg non_blocking then sock ∷ [] else []

abbrev pub to_workq : Accept → List ℕ
to_workq failed = []
to_workq (accepted sock non_blocking add) =
    if is_neg non_blocking then [] else if int_eq add (pos 0) then sock ∷ [] else []

abbrev pub to_refused : Accept → List ℕ
to_refused failed = []
to_refused (accepted sock non_blocking add) =
    if is_neg non_blocking then [] else if int_eq add (pos 0) then [] else sock ∷ []

pub all : (Accept → List ℕ) → List Accept → List ℕ
all f [] = []
all f (a ∷ rest) = f a ++ all f rest

-- What a run adds to each list.
abbrev pub sorted_into : Clients → (workq closed refused : List ℕ) → Clients
sorted_into c workq closed refused = record {
  tunnel_workq = c.tunnel_workq ++ workq;
  closed = c.closed ++ closed;
  refused = c.refused ++ refused;
}

same_clients : (c : Clients) → c ≡ sorted_into c [] [] []
same_clients c = simp append-nil refl

accept_client-sorted :
    (a : Accept) (c : Clients)
    → accept_client a c ≡ sorted_into c (to_workq a) (to_closed a) (to_refused a)
unfolding accept_client
accept_client-sorted failed c = same_clients c
accept_client-sorted (accepted sock non_blocking add) c = elim (Bool-cases (is_neg non_blocking)) [
  | inl fails ↦ rw fails (simp append-nil refl)
  | inr works ↦ rw works (elim (Bool-cases (int_eq add (pos 0))) [
    | inl added ↦ rw added (simp append-nil refl)
    | inr refused ↦ rw refused (simp append-nil refl)
  ])
]

-- Each socket that accept has returned is behind a run in exactly one list and in the order in which they came: the
-- closed ones, those in the work queue, or those that it has refused, which stay open without an owner.
pub accept_loop-sorted :
    (rest : List Accept) (c : Clients)
    → accept_loop rest c
      ≡ sorted_into c (all to_workq rest) (all to_closed rest) (all to_refused rest)
unfolding accept_loop all
accept_loop-sorted [] c = same_clients c
accept_loop-sorted (a ∷ rest) c =
    accept_loop-sorted rest (accept_client a c) ∙ simp (accept_client-sorted a c, append_assoc) refl
