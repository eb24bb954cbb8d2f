-- ===== src/Queues/SharedQueue/Destroy.antt =====
-- `~shared_queue`, with the counts of std::shared_ptr to each node: `node::deleter` is called by the
-- last one to go, and deletes the node unless that is switched off.
pub mod Release
pub mod Between
pub mod Finish
pub mod Prepare
pub mod Destroyed
use cpp_util.Prelude.{
  ℕ, zero, suc, ◌+◌, ◌-◌, Bool, true, false, ◌||◌, List, [], ◌∷◌, ◌++◌, ◌==◌, if◌then◌else◌, Run,
  ok, fault, undefined, out_of_fuel, ◌>>=◌, ◌>>◌,
}
use cpp_util.Queues.HazardQueue.{Ptr, null, update}

-- The nodes, and those deleted so far.
pub record Nodes : Type 0 where
  pub next : Ptr → Ptr
  pub uses : Ptr → ℕ  -- the use_count of the node's shared pointers
  pub delete_self : Ptr → Bool
  pub live : Ptr → Bool
  pub deleted : List Ptr

-- An access to a node.
unfoldable pub touch : Ptr → Nodes → Run (Unit {0})
touch p s = if s.live p then ok tt else fault undefined

-- A copy of a shared pointer.
abbrev pub acquire : Ptr → Nodes → Nodes
acquire p s = if p == null then s else record s { uses = update s.uses p (s.uses p + 1) }

abbrev pub mark : Ptr → Nodes → Nodes
mark p s = record s { live = update s.live p false; deleted = s.deleted ++ p ∷ [] }

-- The end of a shared pointer. The destructor of a node ends its `next`.
unfoldable pub release : ℕ → Ptr → Nodes → Run Nodes
unfolding touch
release zero p s = fault out_of_fuel
release (suc fuel) p s =
    let fewer = record s { uses = update s.uses p (s.uses p - 1) } in
    let delete_it = release fuel (s.next p) (mark p fewer) in
    let deleter : Run Nodes = touch p s >> (if s.delete_self p then delete_it else ok fewer) in
    if p == null
    then ok s
    else if s.uses p == 0
    then fault undefined
    else if s.uses p == 1
    then deleter
    else ok fewer

-- A store of a null pointer to the `next` of a node.
unfoldable pub clear_next : ℕ → Ptr → Nodes → Run Nodes
unfolding touch release
clear_next fuel p s = do
  _ ← touch p s
  release fuel (s.next p) (record s { next = update s.next p null })

-- `delete to_delete`
unfoldable pub delete_node : ℕ → Ptr → Nodes → Run Nodes
unfolding touch release
delete_node fuel p s = do _ ← touch p s; release fuel (s.next p) (mark p s)

-- The body of the loop behind `start.reset()`: the next node.
unfoldable pub turn : ℕ → Ptr → Nodes → Run (Ptr × Nodes)
unfolding touch release clear_next delete_node
turn fuel i s = do
  _ ← touch i s
  let off = record s { delete_self = update s.delete_self i false }
  let i' = off.next i
  a ← release fuel i (acquire i' off)
  b ← clear_next fuel i a
  c ← delete_node fuel i b
  ok (i', c)

-- The loop, with the variables `start` and `i`.
unfoldable pub delete_between : ℕ → Ptr → Ptr → Ptr → Nodes → Run (Ptr × Ptr × Nodes)
unfolding release turn
delete_between zero start i oldtail s = fault out_of_fuel
delete_between (suc fuel) start i oldtail s =
    let more : Run (Ptr × Ptr × Nodes) = do
      a ← release 2 start s
      (i', b) ← turn 2 i a
      delete_between fuel null i' oldtail b
    in if i == oldtail || i == null then ok (start, i, s) else more

-- What comes before the loop: `start`, of which `i` is a copy.
unfoldable pub prepare : Ptr → Ptr → Nodes → Run (Ptr × Nodes)
unfolding touch clear_next
prepare head tail s = do
  let a = acquire head s
  _ ← touch head a
  let start = a.next head
  b ← clear_next 2 head (acquire start a)
  ok (start, acquire start (acquire tail b))

-- What comes behind it: the ends of `i`, `oldtail`, `start`, `oldhead`, `tail_` and `head_`.
unfoldable pub finish : Ptr → Ptr → Ptr → Ptr → Nodes → Run Nodes
unfolding touch release
finish head tail start i s = do
  a ← release 2 i s
  _ ← touch head a
  let b = record a { delete_self = update a.delete_self head true }
  _ ← touch tail b
  let c = record b { delete_self = update b.delete_self tail true }
  d ← release 2 tail c
  e ← release 2 start d
  f ← release 2 head e
  g ← release 2 tail f
  release 2 head g

unfoldable pub destroy : ℕ → Ptr → Ptr → Nodes → Run Nodes
unfolding prepare delete_between finish
destroy fuel head tail s = do
  (start, a) ← prepare head tail s
  (start', i, b) ← delete_between fuel start start tail a
  finish head tail start' i b
