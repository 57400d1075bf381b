-- ===== src/Dns/Namecheap/Steps.antt =====
-- Operations of several tasks on one domain, cut where they wait for the network.
use jackdaw.Dns.Namecheap.{Act, append_txt, remove_txt, apply, HostRecord, without_txt}
use jackdaw.Base.{
  length, is_empty, Option, List, Bool, ◌≡◌, [], ◌++◌, some, ◌∷◌, true, false, none, ltb,
}

-- An operation between its entry and its end, and the records that it has read.
pub record Operation : Type 0 where
  pub act : Act
  pub snapshot : Option (List HostRecord)

-- The records of the domain at Namecheap, and the operations that are inside the lock of the domain.
pub record Shared : Type 0 where
  pub hosts : List HostRecord
  pub inside : List Operation

-- `async with self._lock_for(domain)`
unfoldable pub may_enter : List Operation → Bool
may_enter inside = is_empty inside

-- The new records are written unless the operation deletes and finds nothing to delete.
abbrev pub writes : Act → List HostRecord → Bool
writes (append_txt name value) hosts = true
writes (remove_txt name) hosts = ltb (length (without_txt name hosts)) (length hosts)

abbrev pub Holds : Shared → List Operation → Operation → List Operation → Type 0
Holds s before t after = s.inside ≡ before ++ t ∷ after

-- One step of one of the tasks, and the operation whose effect is then decided, if there is one.
pub data Step : Shared → Option Act → Shared → Type 0 where
  enter :
      (a : Act) (s s' : Shared)
      → may_enter s.inside ≡ true
      → s' ≡ record s { inside = s.inside ++ record { act = a; snapshot = none } ∷ [] }
      → Step s none s'
  read :
      (before after : List Operation) (a : Act) (s s' : Shared)
      → Holds s before (record { act = a; snapshot = none }) after
      → s' ≡ record s { inside = before ++ record { act = a; snapshot = some s.hosts } ∷ after }
      → Step s none s'
  -- The request is refused or does not come through, and the task leaves by an exception.
  fails :
      (before after : List Operation) (t : Operation) (s s' : Shared)
      → Holds s before t after
      → s' ≡ record s { inside = before ++ after }
      → Step s none s'
  -- All records are replaced; whether the reply comes back or not, the task then leaves.
  write :
      (before after : List Operation) (a : Act) (hosts : List HostRecord) (s s' : Shared)
      → Holds s before (record { act = a; snapshot = some hosts }) after
      → writes a hosts ≡ true
      → s' ≡ record { hosts = apply a hosts; inside = before ++ after }
      → Step s (some a) s'
  skip :
      (before after : List Operation) (a : Act) (hosts : List HostRecord) (s s' : Shared)
      → Holds s before (record { act = a; snapshot = some hosts }) after
      → writes a hosts ≡ false
      → s' ≡ record s { inside = before ++ after }
      → Step s (some a) s'

abbrev pub logged : Option Act → List Act → List Act
logged none log = log
logged (some a) log = a ∷ log

-- Any steps, with the operations in the order in which their effects were decided.
pub data Run : Shared → List Act → Shared → Type 0 where
  done : (s : Shared) → Run s [] s
  more :
      (l : Option Act) (log : List Act) (s s' s'' : Shared)
      → Step s l s'
      → Run s' log s''
      → Run s (logged l log) s''

-- The operations one after the other, with no interleaving.
abbrev pub replay : List Act → List HostRecord → List HostRecord
replay [] hosts = hosts
replay (a ∷ log) hosts = replay log (apply a hosts)
