-- ===== src/HimProxy/Children/Killed.antt =====
-- Whom kill_all_children sends its signal to.
use tpt.Common.{
  ℕ, zero, suc, ◌+◌, ◌≤◌, ◌<◌, ◌≡◌, refl, ap, ◌∙◌, true, some, List, [], ◌∷◌, arith, ℤ, pos, negsuc,
  minus, is_neg, ltb, if◌then◌else◌,
}
use tpt.HimProxy.Children.{
  max_child, Fork, fork_result, Table, Children, clamped, create_multiple_child, rounds_of,
  kill_loop, kill_all_children,
}
use tpt.HimProxy.Children.Laws.{create_multiple_child-counts}

-- The entries of the table from `i` on.
abbrev pub entries : (rounds i : ℕ) → Table → List ℤ
entries zero i t = []
entries (suc rounds) i t = t i ∷ entries rounds (i + 1) t

-- The result of the last `kill` of a loop that starts at `i`.
abbrev pub last_result : (rounds i : ℕ) → (ret : ℤ) → (ℕ → ℤ) → ℤ
last_result zero i ret kills = ret
last_result (suc rounds) i ret kills =
    if is_neg (kills (i + rounds)) then minus 1 else kills (i + rounds)

last_result-suc :
    (rounds i : ℕ) (ret : ℤ) (kills : ℕ → ℤ)
    → last_result rounds (i + 1) (if is_neg (kills i) then minus 1 else kills i) kills
      ≡ last_result (suc rounds) i ret kills
last_result-suc zero i ret kills =
    ap (λ (k : ℕ). if is_neg (kills k) then minus 1 else kills k) (omega arith)
last_result-suc (suc rounds) i ret kills =
    ap (λ (k : ℕ). if is_neg (kills k) then minus 1 else kills k) (omega arith)

kill_loop-pids :
    (rounds i : ℕ) (ret : ℤ) (kills : ℕ → ℤ) (t : Table)
    → i + rounds ≤ max_child
    → kill_loop rounds i ret kills t ≡ some (last_result rounds i ret kills, entries rounds i t)
unfolding kill_loop
kill_loop-pids zero i ret kills t fits = refl
kill_loop-pids (suc rounds) i ret kills t fits =
    let inside : ltb i max_child ≡ true = ground arith in
    let next = if is_neg (kills i) then minus 1 else kills i in
    rw
      (
        inside,
        kill_loop-pids rounds (i + 1) next kills t (omega arith),
        last_result-suc rounds i ret kills,
      )
      refl

entries-ap :
    (rounds i : ℕ) (t u : Table)
    → ((j : ℕ) → j < i + rounds → t j ≡ u j)
    → entries rounds i t ≡ entries rounds i u
entries-ap zero i t u same = refl
entries-ap (suc rounds) i t u same =
    rw (same i (omega arith), entries-ap rounds (i + 1) t u (λ j below. same j (omega arith))) refl

rounds_of-le : (num : ℤ) → rounds_of num ≤ max_child → rounds_of num ≤ clamped num
unfolding clamped
rounds_of-le (pos n) fits = ground arith
rounds_of-le (negsuc n) fits = omega arith

-- After create_multiple_child with the same `num`, at most `max_child`, kill_all_children sends to what fork
-- returned for the indices below `num`: to every child if `num` is positive, and to no process if
-- it is not, though one child was started then; for a fork that failed it sends to -1, which `kill` takes for every process. It returns
-- what the last `kill` makes of it, whatever became of those before.
pub kill_all_children-started :
    (num : ℤ) (forks : ℕ → Fork) (kills : ℕ → ℤ) (s : Children)
    → rounds_of num ≤ max_child
    → kill_all_children num kills (create_multiple_child num forks s).table
      ≡ some (
        last_result (rounds_of num) 0 (pos 0) kills,
        entries (rounds_of num) 0 (λ j. fork_result (forks j)),
      )
unfolding kill_all_children
kill_all_children-started num forks kills s fits =
    let (active, some_child, few, at) = create_multiple_child-counts num forks s in
    let enough = rounds_of-le num fits in
    kill_loop-pids (rounds_of num) 0 (pos 0) kills _ (omega arith)
    ∙ ap (λ (l : List ℤ). some (last_result (rounds_of num) 0 (pos 0) kills, l))
        (entries-ap (rounds_of num) 0 _ _ (λ j below. at j ∙ ground arith))
