-- ===== src/ProxyOld/Buffer/Filled.antt =====
-- The buffer with bytes in it: alloc_client_buf always leaves room for more, and a store keeps it so.
use tpt.Common.{
  ℕ, ◌+◌, ◌-◌, ◌*◌, ◌^◌, ◌≤◌, ◌<◌, ◌≡◌, refl, sym, ap, ◌∙◌, ◌⊎◌, inl, inr, true, false, Option,
  none, some, List, [], ◌++◌, length, length-append, take, is_some, leb, ltb, ◌==◌, arith,
  Bool-cases, dec_lt, ==_iff, take-all, Option-cases,
}
use tpt.ProxyOld.{Block, ProxyInfo}
use tpt.ProxyOld.Buffer.{
  request_buf_size, realloc_limit, reallocated, wanted_size, alloc_client_buf, stored,
}

abbrev pub content_of : Option Block → List ℕ
content_of none = []
content_of (some b) = b.content

abbrev pub room_of : Option Block → ℕ
room_of none = 0
room_of (some b) = b.room

-- The buffer has these bytes in it, and the fields say so; a block, once there is one, has the size in
-- client_buf_size, at least realloc_limit.
pub record Filled (p : ProxyInfo) (content : List ℕ) : Type 0 where
  pub contents : content_of p.client_buf ≡ content
  pub filled : length content ≡ p.client_buf_curr_len
  pub block : room_of p.client_buf ≡ p.client_buf_size
  pub within : p.client_buf_curr_len ≤ p.client_buf_size
  pub wide : (p.client_buf_size ≡ 0) ⊎ (realloc_limit ≤ p.client_buf_size)

-- The requests and how far they have been parsed.
abbrev pub SameRequests : ProxyInfo → ProxyInfo → Type 0
SameRequests p q = (q.curr_req ≡ p.curr_req) × (q.client_buf_parsed_len ≡ p.client_buf_parsed_len)

has_block :
    (p : ProxyInfo)
    → room_of p.client_buf ≡ p.client_buf_size
    → (p.client_buf_size == 0) ≡ false
    → is_some p.client_buf ≡ true
has_block p block some_size = by_block p.client_buf block
  where
    by_block : (o : Option Block) → room_of o ≡ p.client_buf_size → is_some o ≡ true
    by_block none e = absurd (ground arith)
    by_block (some b) e = refl

pub wanted_size-Filled :
    (p : ProxyInfo) (content : List ℕ)
    → Filled p content
    → 2 * (p.client_buf_curr_len + realloc_limit) < 2 ^ 31
    → (size : ℕ) × (wanted_size (p.client_buf_size - p.client_buf_curr_len) p ≡ some size)
      × (p.client_buf_curr_len + realloc_limit ≤ size)
unfolding wanted_size
wanted_size-Filled p content f small = elim (Bool-cases (p.client_buf_size == 0)) [
  | inl empty ↦ (
    request_buf_size,
    rw empty refl,
    omega (arith, f.within, (==_iff p.client_buf_size 0).0 empty),
  )
  | inr some_size ↦ elim (dec_lt (p.client_buf_size - p.client_buf_curr_len) realloc_limit) [
    | yes narrow ↦
        let grows : ltb (p.client_buf_size - p.client_buf_curr_len) realloc_limit ≡ true =
          ground arith in
        let in_int : ltb (p.client_buf_size * 2) (2 ^ 31) ≡ true = ground arith in
        (
          p.client_buf_size * 2,
          rw (some_size, grows, has_block p f.block some_size, in_int) refl,
          elim f.wide [ inl zero_size ↦ absurd (ground arith) | inr w ↦ omega (arith, f.within) ],
        )
    | no enough ↦
        let stays : ltb (p.client_buf_size - p.client_buf_curr_len) realloc_limit ≡ false =
          ground arith in
        (p.client_buf_size, rw (some_size, stays) refl, omega (arith, f.within))
  ]
]

pub alloc_client_buf-Filled :
    (address size : ℕ) (p : ProxyInfo) (content : List ℕ)
    → Filled p content
    → p.client_buf_curr_len + realloc_limit ≤ size
    → Filled (alloc_client_buf (some address) size p).1 content
unfolding alloc_client_buf
alloc_client_buf-Filled address size p content f wide = record {
  contents = kept p.client_buf f.contents;
  filled = f.filled;
  block = room p.client_buf;
  within = omega arith;
  wide = inr (omega arith);
}
  where
    kept :
        (o : Option Block)
        → content_of o ≡ content
        → content_of (some (reallocated address o size)) ≡ content
    kept none e = e
    kept (some b) e = ap (take size) e ∙ take-all size content (omega (arith, f.filled))

    room : (o : Option Block) → room_of (some (reallocated address o size)) ≡ size
    room none = refl
    room (some b) = refl

pub stored-Filled :
    (p : ProxyInfo) (content bytes : List ℕ)
    → is_some p.client_buf ≡ true
    → Filled p content
    → realloc_limit ≤ p.client_buf_size
    → p.client_buf_curr_len + length bytes ≤ p.client_buf_size
    → (p' : ProxyInfo) × (stored p bytes ≡ some p')
      × Filled p' (content ++ bytes)
      × (p'.client_buf_curr_len ≡ p.client_buf_curr_len + length bytes)
      × SameRequests p p'
unfolding stored
stored-Filled p content bytes got_block f wide fits = elim (Option-cases p.client_buf) [
  | inr e ↦ absurd (ground arith)
  | inl (b, e) ↦
      let here : b.content ≡ content = ap content_of (sym e) ∙ f.contents in
      let room : b.room ≡ p.client_buf_size = ap room_of (sym e) ∙ f.block in
      let at_end : (length b.content == p.client_buf_curr_len) ≡ true =
        (==_iff _ _).1 (ap length here ∙ f.filled) in
      let inside : leb (p.client_buf_curr_len + length bytes) b.room ≡ true = ground arith in
      (
        record p {
          client_buf = some (record b { content = b.content ++ bytes });
          client_buf_curr_len = p.client_buf_curr_len + length bytes;
        },
        rw (e, at_end, inside) refl,
        record {
          contents = ap (λ (l : List ℕ). l ++ bytes) here;
          filled = omega (arith, length-append content bytes, f.filled);
          block = room;
          within = fits;
          wide = inr wide;
        },
        refl,
        (refl, refl),
      )
]
