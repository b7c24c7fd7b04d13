-- ===== src/MongoApi/Pool/Laws.antt =====
-- The sizes and timeouts that the pool is made with, and what is left of it.
use tpt.Common.{
  ℕ, ◌≤◌, ◌<◌, ◌≡◌, refl, sym, ap, ◌∙◌, ◌⊎◌, inl, inr, Bool, true, false, some, ℤ, pos, negsuc,
  int_eq, ltb, if◌then◌else◌, arith, Bool-cases,
}
use tpt.MongoApi.Pool.{
  Params, above, or_default, mongo_check_pool_params, mongo_context_pool_init,
  mongo_context_pool_destroy,
}

-- Sizes and timeouts that a pool can have.
abbrev pub IsUsable : Params → Type 0
IsUsable p =
    (min : ℕ) × (max : ℕ) × (conn : ℕ) × (op : ℕ) × (p ≡ record {
      min_size = pos min;
      max_size = pos max;
      conn_timeout = pos conn;
      op_timeout = pos op;
    })
    × (0 < min)
    × (min ≤ max)
    × (0 < conn)
    × (0 < op)

or_default-pos : (d : ℕ) (n : ℤ) → 0 < d → (k : ℕ) × (or_default d n ≡ pos k) × (0 < k)
or_default-pos d (negsuc n) h = (d, refl, h)
or_default-pos d (pos n) h = elim (Bool-cases (ltb 0 n)) [
  | inl big ↦ (n, rw big refl, ground arith)
  | inr small ↦ (d, rw small refl, h)
]

or_default-same : (d n : ℕ) → 0 < n → or_default d (pos n) ≡ pos n
or_default-same d n h = ground arith

-- What becomes of the least size.
abbrev least : ℤ → ℤ → ℤ
least min max = if above min max then max else min

clamp : (m n : ℕ) → 0 < m → 0 < n → (k : ℕ) × (least (pos m) (pos n) ≡ pos k) × (0 < k) × (k ≤ n)
clamp m n hm hn = elim (Bool-cases (ltb n m)) [
  | inl big ↦ (n, rw big refl, hn, omega arith)
  | inr fits ↦ (m, rw fits refl, hm, ground arith)
]

usable-stays :
    (m n c o : ℕ)
    → 0 < m
    → m ≤ n
    → 0 < c
    → 0 < o
    → mongo_check_pool_params
        (record { min_size = pos m; max_size = pos n; conn_timeout = pos c; op_timeout = pos o })
      ≡ record { min_size = pos m; max_size = pos n; conn_timeout = pos c; op_timeout = pos o }
unfolding mongo_check_pool_params
usable-stays m n c o hm mn hc ho =
    let m_pos : ltb 0 m ≡ true = ground arith in
    let n_pos : ltb 0 n ≡ true = ground arith in
    let c_pos : ltb 0 c ≡ true = ground arith in
    let o_pos : ltb 0 o ≡ true = ground arith in
    let fits : ltb n m ≡ false = ground arith in rw (m_pos, n_pos, c_pos, o_pos, fits) refl

-- Whatever the arguments are, mongo_check_pool_params makes them usable: both timeouts and the least size are positive, and
-- the least size is at most the greatest. Arguments that are usable already stay as they are.
pub mongo_check_pool_params-IsUsable :
    (p : Params)
    → IsUsable (mongo_check_pool_params p) × (IsUsable p → mongo_check_pool_params p ≡ p)
unfolding mongo_check_pool_params
mongo_check_pool_params-IsUsable p = (usable, stays)
  where
    usable : IsUsable (mongo_check_pool_params p)
    usable =
        let (m, em, hm) = or_default-pos 1 p.min_size (omega arith) in
        let (n, en, hn) = or_default-pos 10 p.max_size (omega arith) in
        let (c, ec, hc) = or_default-pos 5000 p.conn_timeout (omega arith) in
        let (o, eo, ho) = or_default-pos 5000 p.op_timeout (omega arith) in
        let (k, ek, hk, kn) = clamp m n hm hn in
        let both : least (or_default 1 p.min_size) (or_default 10 p.max_size)
            ≡ least (pos m) (pos n) =
          λ j. least (em j) (en j) in
        (
          k,
          n,
          c,
          o,
          (λ i. record {
            min_size = (both ∙ ek) i;
            max_size = en i;
            conn_timeout = ec i;
            op_timeout = eo i;
          }),
          hk,
          kn,
          hc,
          ho,
        )

    stays : IsUsable p → mongo_check_pool_params p ≡ p
    stays (m, n, c, o, e, hm, mn, hc, ho) =
        ap mongo_check_pool_params e ∙ usable-stays m n c o hm mn hc ho ∙ sym e

-- mongo_context_pool_init returns 0 and has made a pool of the driver, with a struct for it in `*mpool`, which
-- mongo_context_pool_destroy undoes; or it returns another number and neither a pool nor a URI is left. A
-- URI is never left, and is made from usable arguments.
pub mongo_context_pool_init-all_or_nothing :
    (p : Params) (uri pool memory : Bool)
    → ((mongo_context_pool_init true p uri pool memory).uri ≡ false)
      × ((mongo_context_pool_init true p uri pool memory).params ≡ some (mongo_check_pool_params p))
      × (((mongo_context_pool_init true p uri pool memory).ret ≡ pos 0)
            × ((mongo_context_pool_init true p uri pool memory).pool ≡ true)
            × ((mongo_context_pool_init true p uri pool memory).mpool ≡ some true)
            × ((mongo_context_pool_destroy true
                  (mongo_context_pool_init true p uri pool memory)).pool
                ≡ false)
          ⊎ ((int_eq (mongo_context_pool_init true p uri pool memory).ret (pos 0) ≡ false)
              × ((mongo_context_pool_init true p uri pool memory).pool ≡ false)))
unfolding mongo_context_pool_init mongo_context_pool_destroy
mongo_context_pool_init-all_or_nothing p false pool memory = (refl, refl, inr (refl, refl))
mongo_context_pool_init-all_or_nothing p true false memory = (refl, refl, inr (refl, refl))
mongo_context_pool_init-all_or_nothing p true true false = (refl, refl, inr (refl, refl))
mongo_context_pool_init-all_or_nothing p true true true = (refl, refl, inl (refl, refl, refl, refl))
