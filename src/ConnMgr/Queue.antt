-- ===== src/ConnMgr/Queue.antt =====
-- src/networking/conn_mgr/conn_mgr_queue.c: a singly linked queue with a head and a tail pointer, over
-- an explicit heap of items. A `conn_mgr_queue_t *` is `none` for NULL and else the two pointers of the
-- struct; a function returns the struct as it leaves it. What `malloc` returns is an argument, 0 for
-- NULL. A command that dereferences NULL or an address that holds no item is a fault, `none`. The two
-- walks run on fuel.
pub mod Chain
pub mod Refinement
pub mod Walks
pub mod Spec
mod Tests
use tpt.Common.{
  ℕ, zero, suc, ◌+◌, ◌%◌, ◌^◌, Bool, true, false, Option, none, some, List, [], ◌∷◌, ◌++◌, ◌==◌,
  if◌then◌else◌,
}

abbrev pub Ptr : Type 0
Ptr = ℕ

abbrev pub null : Ptr
null = 0

-- struct conn_mgr_queue_item_t
pub record Item : Type 0 where
  pub content : Ptr
  pub next : Ptr

abbrev pub item_of : Ptr → Ptr → Item
item_of d q = record { content = d; next = q }

-- struct conn_mgr_queue_t
pub record Queue : Type 0 where
  pub head : Ptr
  pub tail : Ptr

abbrev pub Heap : Type 0
Heap = Ptr → Option Item

abbrev pub write : Heap → Ptr → Option Item → Heap
write h p c a = if p == a then c else h a

-- `none` is a fault.
abbrev pub Cmd : Type 0 → Type 0
Cmd A = Heap → Option (A × Heap)

abbrev pub pure : {A : Type 0} → A → Cmd A
pure a h = some (a, h)

infixl 5 ◌>>=◌ ◌>>◌
abbrev pub ◌>>=◌ : {A B : Type 0} → Cmd A → (A → Cmd B) → Cmd B
◌>>=◌ m f h = elim (m h) [ none ↦ none | some (a, h') ↦ f a h' ]

abbrev pub ◌>>◌ : {B : Type 0} → Cmd (Unit {0}) → Cmd B → Cmd B
m >> k = m >>= λ _. k

-- `*p`
abbrev pub load : Ptr → Cmd Item
load p h = if p == null then none else elim (h p) [ none ↦ none | some c ↦ some (c, h) ]

abbrev pub store : Ptr → Option Item → Cmd (Unit {0})
store p c h = some (tt, write h p c)

-- `p->next = q`
abbrev pub set_next : Ptr → Ptr → Cmd (Unit {0})
set_next p q = do c ← load p; store p (some (record c { next = q }))

pub init : Option Queue → Option Queue
init none = none
init (some q) = some (record { head = null; tail = null })

pub push_head : (item : Ptr) → Option Queue → Ptr → Cmd (Option Queue)
push_head item none content = pure none
push_head item (some q) content =
    if content == null then pure (some q) else if item == null then pure (some q) else do
      store item (some (item_of content q.head))
      pure (some (record { head = item; tail = if q.tail == null then item else q.tail }))

pub push_tail : (item : Ptr) → Option Queue → Ptr → Cmd (Option Queue)
push_tail item none content = pure none
push_tail item (some q) content =
    if content == null then pure (some q) else if item == null then pure (some q) else do
      store item (some (item_of content null))
      if q.tail == null
          then pure (some (record { head = item; tail = item }))
          else (do set_next q.tail item; pure (some (record { head = q.head; tail = item })))

pub pop_head : Option Queue → Cmd (Ptr × Option Queue)
pop_head none = pure (null, none)
pop_head (some q) = if q.head == null then pure (null, some q) else do
  c ← load q.head
  store q.head none
  pure (c.content, some (record { head = c.next; tail = if c.next == null then null else q.tail }))

length_loop : ℕ → Ptr → ℕ → Cmd ℕ
length_loop zero item count = λ _. none
length_loop (suc k) item count =
    if item == null
    then pure count
    else do c ← load item; length_loop k c.next ((count + 1) % 2 ^ 32)

-- There is no test for a NULL queue.
pub get_length : (fuel : ℕ) → Option Queue → Cmd ℕ
unfolding length_loop
get_length fuel none = λ _. none
get_length fuel (some q) = length_loop fuel q.head 0

-- The arguments of the calls of `print_callback`, in order.
print_loop : ℕ → Ptr → Cmd (List Ptr)
print_loop zero item = λ _. none
print_loop (suc k) item =
    if item == null
    then pure []
    else do c ← load item; rest ← print_loop k c.next; pure (c.content ∷ rest)

-- `callback` says whether print_callback is given.
pub print : (fuel : ℕ) → (callback : Bool) → Option Queue → Cmd (List Ptr)
unfolding print_loop
print fuel false queue = pure []
print fuel true none = λ _. none
print fuel true (some q) = print_loop fuel q.head
