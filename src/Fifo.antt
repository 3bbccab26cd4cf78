-- ===== src/Fifo.antt =====
-- The functions of fifo.c: doubly linked lists of page descriptors.
pub mod Links
pub mod Walk
mod Tests
pub mod Calls
pub mod Take
pub mod Put
pub mod Queues
pub mod Unlink
pub mod Split
pub mod Enqueue
use swap_prefetch.Common.{
  ℕ, zero, suc, ◌+◌, ◌-◌, Bool, true, false, not, List, [], ◌∷◌, ◌==◌, ltb, if◌then◌else◌,
}
use swap_prefetch.Memory.{
  Ptr, null, Cmd, pure, ◌>>=◌, ◌>>◌, assert, load, load_list, set_next, set_prev, set_list,
  set_first, set_last, set_numentries,
}

-- the writes of `enqueue_fifo` to the list before the entry is linked
enqueue_neighbour : Ptr → Ptr → Cmd (Unit {0})
enqueue_neighbour queue entry = do
  l ← load_list queue
  if not (l.first == null)
      then (do f ← load l.first; assert (f.prev == null); set_prev l.first entry)
      else (do assert (l.last == null); assert (l.numentries == 0); set_last queue entry)

pub enqueue_fifo : Ptr → Ptr → Cmd (Unit {0})
unfolding enqueue_neighbour
enqueue_fifo queue entry = do
  l ← load_list queue
  e ← load entry
  assert (e.prev == null)
  set_next entry l.first
  enqueue_neighbour queue entry
  set_first queue entry
  set_list entry queue
  n ← load_list queue
  set_numentries queue (n.numentries + 1)

-- `queue->last = page->prev` and the repair of its new last entry
drop_last : Ptr → Ptr → Cmd (Unit {0})
drop_last queue page = do
  e ← load page
  set_last queue e.prev
  if not (e.prev == null) then set_next e.prev null else set_first queue null

-- `page->prev = page->next = NULL; page->list = NULL`
clear_links : Ptr → Cmd (Unit {0})
clear_links page = do set_next page null; set_prev page null; set_list page null

-- `assert(queue->numentries > 0); queue->numentries--`
count_down : Ptr → Cmd (Unit {0})
count_down queue = do
  l ← load_list queue
  assert (ltb 0 l.numentries)
  set_numentries queue (l.numentries - 1)

-- what `dequeue_fifo` does with the last entry, and `dequeue_fifo_vector` with each
pub take_last : Ptr → Ptr → Cmd (Unit {0})
unfolding drop_last clear_links count_down
take_last queue page = do drop_last queue page; clear_links page; count_down queue

pub dequeue_fifo : Ptr → Cmd Ptr
dequeue_fifo queue = do
  l ← load_list queue
  if l.last == null then pure null else (do take_last queue l.last; pure l.last)

-- the part that `page_list_remove_page` and `page_list_tryremove_page` share
pub unlink : Ptr → Ptr → Cmd (Unit {0})
unfolding count_down clear_links
unlink list page = do
  l ← load_list list
  e ← load page
  if l.first == page then set_first list e.next else pure tt
  l2 ← load_list list
  if l2.last == page then set_last list e.prev else pure tt
  if not (e.next == null) then set_prev e.next e.prev else pure tt
  e2 ← load page
  if not (e2.prev == null) then set_next e2.prev e2.next else pure tt
  count_down list
  clear_links page

pub page_list_remove_page : Ptr → Ptr → Cmd (Unit {0})
page_list_remove_page list page = do
  l ← load_list list
  if l.first == null
      then (do assert (l.last == null); assert (l.numentries == 0))
      else unlink list page

-- `true` is the return value 0, `false` is -1.
pub page_list_tryremove_page : Ptr → Ptr → Cmd Bool
page_list_tryremove_page list page = if list == null then pure false else do
  e ← load page
  if not (e.list == list) then pure false else do
    l ← load_list list
    if l.first == null
        then (do assert (l.last == null); assert (l.numentries == 0); pure false)
        else (do unlink list page; pure true)

pub next_page : Ptr → Ptr → Cmd Ptr
next_page list page = do
  l ← load_list list
  if page == null then pure l.last else do e ← load page; assert (e.list == list); pure e.prev

-- The rounds left are `nr_fetch - nr_taken`; the result is `vector[nr_taken..]`, oldest first.
pub dequeue_fifo_vector : Ptr → ℕ → Cmd (List Ptr)
dequeue_fifo_vector queue zero = pure []
dequeue_fifo_vector queue (suc n) =
    let rest = dequeue_fifo_vector queue n in
    do
      l ← load_list queue
      if l.last == null
          then pure []
          else (do take_last queue l.last; pages ← rest; pure (l.last ∷ pages))
