-- ===== src/EpollEcho/Binding.antt =====
-- The address that the echo server listens on.
use tpt.Common.{
  ◌≡◌, refl, sym, ap, ◌∙◌, inl, inr, Bool, true, false, not, ◌&&◌, Option, none, some, List, [],
  ◌∷◌, ◌++◌, ℤ, pos, minus, int_eq, if◌then◌else◌, arith, Bool-cases, and_right,
}
use mathlib.Core.List.{append-nil}
use tpt.EpollEcho.{Address, bind_loop, bound, create_and_bind}

-- A socket can be had for the address.
abbrev pub opens : Address → Bool
opens a = not (int_eq a.socket (minus 1))

-- It cannot, or not be bound.
abbrev pub unusable : List Address → Bool
unusable [] = true
unusable (a ∷ xs) = not (opens a && int_eq a.bind (pos 0)) && unusable xs

abbrev pub opened : List Address → List ℤ
opened [] = []
opened (a ∷ xs) = if opens a then a.socket ∷ opened xs else opened xs

bind_loop-unusable :
    (before rest : List Address)
    → unusable before ≡ true
    → bind_loop (before ++ rest) ≡ ((bind_loop rest).0, opened before ++ (bind_loop rest).1)
unfolding bind_loop
bind_loop-unusable [] rest h = refl
bind_loop-unusable (a ∷ xs) rest h = elim (Bool-cases (int_eq a.socket (minus 1))) [
  | inl missing ↦ rw missing (bind_loop-unusable xs rest (and_right _ _ h))
  | inr there ↦ elim (Bool-cases (int_eq a.bind (pos 0))) [
    | inl binds ↦ absurd (ground arith)
    | inr refused ↦
        rw (there, refused)
          (ap (λ (r : Option ℤ × List ℤ). (r.0, a.socket ∷ r.1))
            (bind_loop-unusable xs rest (and_right _ _ h)))
  ]
]

-- Once getaddrinfo has found addresses, create_and_bind returns the socket of the first that opens and binds, has closed
-- every socket that it opened for one before, and has freed the list. Without such an address it
-- returns -1 and has closed every socket, and the list stays allocated.
pub create_and_bind-first :
    (before after : List Address) (a : Address)
    → unusable before ≡ true
    → (create_and_bind (pos 0) before
        ≡ record { ret = minus 1; closed = opened before; freed = false })
      × ((opens a && int_eq a.bind (pos 0)) ≡ true
          → create_and_bind (pos 0) (before ++ (a ∷ after))
            ≡ record { ret = a.socket; closed = opened before; freed = true })
unfolding create_and_bind bind_loop
create_and_bind-first before after a h = (
  let none_found : bind_loop before ≡ (none, opened before) =
        ap bind_loop (sym (append-nil before))
        ∙ bind_loop-unusable before [] h
        ∙ ap (λ (l : List ℤ). (none, l)) (append-nil (opened before)) in
      ap bound none_found,
  λ usable.
      let opens_here : int_eq a.socket (minus 1) ≡ false = ground arith in
      let binds : int_eq a.bind (pos 0) ≡ true = and_right _ _ usable in
      let here : bind_loop (a ∷ after) ≡ (some a.socket, []) = rw (opens_here, binds) refl in
      let found : bind_loop (before ++ (a ∷ after)) ≡ (some a.socket, opened before) =
        bind_loop-unusable before (a ∷ after) h
        ∙ ap (λ (r : Option ℤ × List ℤ). (r.0, opened before ++ r.1)) here
        ∙ ap (λ (l : List ℤ). (some a.socket, l)) (append-nil (opened before)) in
      ap bound found,
)
