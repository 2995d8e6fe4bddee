-- ===== src/Scheduler/Topology/Reading.antt =====
-- Which queues the scheduler looks after.
use dispatchhub.Prelude.{
  Text, Bool, true, false, ◌&&◌, ◌||◌, List, [], ◌∷◌, ◌≡◌, refl, ◌∙◌, same, contains, add_all,
  contains-add_all, is_nil, if◌then◌else◌, arith,
}
use dispatchhub.Scheduler.Topology.{Workers, queue_set, queues, or_default, default_queue}

-- Some known worker reads from the queue.
abbrev pub reads : Text → Workers → Bool
reads q [] = false
reads q ((id, w) ∷ ws) = contains q w.queues || reads q ws

-- No known worker reads from any queue.
abbrev pub none_reads : Workers → Bool
none_reads [] = true
none_reads ((id, w) ∷ ws) = is_nil w.queues && none_reads ws

contains-queue_set :
    (q : Text) (ws : Workers) (set : List Text)
    → contains q (queue_set ws set) ≡ (reads q ws || contains q set)
unfolding queue_set
contains-queue_set q [] set = refl
contains-queue_set q ((id, w) ∷ ws) set =
    ground (arith, contains-queue_set q ws (add_all w.queues set), contains-add_all q w.queues set)

is_nil-add_all : (ts us : List Text) → is_nil (add_all ts us) ≡ (is_nil ts && is_nil us)
unfolding add_all contains
is_nil-add_all [] us = refl
is_nil-add_all (t ∷ ts) [] = is_nil-add_all ts (t ∷ []) ∙ ground arith
is_nil-add_all (t ∷ ts) (u ∷ us) =
    ground (arith, is_nil-add_all ts (u ∷ us), is_nil-add_all ts (t ∷ u ∷ us))

is_nil-queue_set :
    (ws : Workers) (set : List Text) → is_nil (queue_set ws set) ≡ (none_reads ws && is_nil set)
unfolding queue_set
is_nil-queue_set [] set = refl
is_nil-queue_set ((id, w) ∷ ws) set =
    ground (arith, is_nil-queue_set ws (add_all w.queues set), is_nil-add_all w.queues set)

contains-or_default :
    (q : Text) (qs : List Text)
    → contains q (or_default qs) ≡ (if is_nil qs then same default_queue q else contains q qs)
unfolding contains
contains-or_default q [] = ground arith
contains-or_default q (x ∷ qs) = refl

-- The queues are those that some known worker reads from, whatever its state; when none reads from any,
-- the default queue alone.
pub queues_known :
    (q : Text) (ws : Workers)
    → contains q (queues ws) ≡ (if none_reads ws then same default_queue q else reads q ws)
unfolding queues
queues_known q ws = ground (
  arith,
  contains-or_default q (queue_set ws []),
  contains-queue_set q ws [],
  is_nil-queue_set ws [],
  nothing,
)
  where
    nothing : contains q [] ≡ false
    nothing = unfold contains in refl
