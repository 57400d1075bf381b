-- ===== src/Dns/Namecheap/Locking.antt =====
-- The lock makes interleaved operations on one domain the same as operations one after the other.
use jackdaw.Dns.Namecheap.{
  Act, append_txt, remove_txt, apply, HostRecord, without_txt, txt_record, is_txt_of,
}
use jackdaw.Dns.Namecheap.Zone.{without_txt-same}
use jackdaw.Base.{
  Option, List, ◌≡◌, [], ◌++◌, some, ◌∷◌, true, false, refl, none, arith, subst, ◌∙◌, String, ◌⊎◌,
  sym, ap, ◌≢◌, inl, inr, Bool-cases, eq_iff,
}
use jackdaw.Dns.Namecheap.Steps.{
  Operation, writes, Shared, may_enter, replay, logged, Holds, Step, Run, enter, done, read, more,
  fails, write, skip,
}

-- What a task has read is what the domain has.
abbrev Current : List HostRecord → Option (List HostRecord) → Type 0
Current hosts none = Unit
Current hosts (some got) = got ≡ hosts

-- At most one task is inside.
abbrev Alone : List HostRecord → List Operation → Type 0
Alone hosts [] = Unit
Alone hosts (t ∷ []) = Current hosts t.snapshot
Alone hosts (t ∷ u ∷ rest) = ⊥

Alone-split :
    (hosts : List HostRecord) (before after : List Operation) (t : Operation)
    → Alone hosts (before ++ t ∷ after)
    → (before ≡ []) × (after ≡ []) × Current hosts t.snapshot
Alone-split hosts [] [] t h = (refl, refl, h)
Alone-split hosts [] (u ∷ after) t h = absurd h
Alone-split hosts (b ∷ []) after t h = absurd h
Alone-split hosts (b ∷ c ∷ before) after t h = absurd h

apply-unwritten :
    (a : Act) (hosts : List HostRecord) → writes a hosts ≡ false → apply a hosts ≡ hosts
apply-unwritten (append_txt name value) hosts h = absurd (cc)
apply-unwritten (remove_txt name) hosts h = without_txt-same name hosts (ground arith)

abbrev Next : Option Act → List HostRecord → Shared → Type 0
Next l hosts s' = (s'.hosts ≡ replay (logged l []) hosts) × Alone s'.hosts s'.inside

Alone-enter :
    (hosts : List HostRecord) (inside : List Operation) (t : Operation)
    → may_enter inside ≡ true
    → Current hosts t.snapshot
    → Alone hosts (inside ++ t ∷ [])
unfolding may_enter
Alone-enter hosts [] t free h = h
Alone-enter hosts (u ∷ inside) t free h = absurd (cc)

Alone-replace :
    (hosts : List HostRecord) (before after : List Operation) (t : Operation)
    → before ≡ []
    → after ≡ []
    → Current hosts t.snapshot
    → Alone hosts (before ++ t ∷ after)
Alone-replace hosts before after t b a h = rw (b, a) h

Alone-leave :
    (hosts : List HostRecord) (before after : List Operation)
    → before ≡ []
    → after ≡ []
    → Alone hosts (before ++ after)
Alone-leave hosts before after b a = rw (b, a) tt

module _ (s : Shared) (h : Alone s.hosts s.inside) (before after : List Operation) (t : Operation)
    (at : Holds s before t after) where
  split_at_task : (before ≡ []) × (after ≡ []) × Current s.hosts t.snapshot
  split_at_task = Alone-split s.hosts before after t (subst (Alone s.hosts) at h)

Step-Next :
    (l : Option Act) (s s' : Shared) → Step s l s' → Alone s.hosts s.inside → Next l s.hosts s'
Step-Next _ s s' (enter a _ _ free e) h =
    subst (Next none s.hosts) (sym e)
      (refl, Alone-enter s.hosts s.inside (record { act = a; snapshot = none }) free tt)
Step-Next _ s s' (read before after a _ _ at e) h =
    let (b, f, _) = split_at_task s h before after (record { act = a; snapshot = none }) at in
    subst (Next none s.hosts) (sym e) (
      refl,
      Alone-replace s.hosts before after (record { act = a; snapshot = some s.hosts }) b f refl,
    )
Step-Next _ s s' (fails before after t _ _ at e) h =
    let (b, f, _) = split_at_task s h before after t at in
    subst (Next none s.hosts) (sym e) (refl, Alone-leave s.hosts before after b f)
Step-Next _ s s' (write before after a hosts _ _ at w e) h =
    let (b, f, c) = split_at_task s h before after (record { act = a; snapshot = some hosts }) at in
    subst (Next (some a) s.hosts) (sym e)
      (ap (apply a) c, Alone-leave (apply a hosts) before after b f)
Step-Next _ s s' (skip before after a hosts _ _ at w e) h =
    let (b, f, c) = split_at_task s h before after (record { act = a; snapshot = some hosts }) at in
    subst (Next (some a) s.hosts) (sym e) (
      sym (subst (λ r. apply a r ≡ r) c (apply-unwritten a hosts w)),
      Alone-leave s.hosts before after b f,
    )

replay-logged :
    (l : Option Act) (log : List Act) (hosts : List HostRecord)
    → replay (logged l log) hosts ≡ replay log (replay (logged l []) hosts)
replay-logged none log hosts = refl
replay-logged (some a) log hosts = refl

Run-replay :
    (log : List Act) (s s' : Shared)
    → Run s log s'
    → Alone s.hosts s.inside
    → (s'.hosts ≡ replay log s.hosts) × Alone s'.hosts s'.inside
Run-replay _ s s' (done _) h = (refl, h)
Run-replay _ s s'' (more l log _ s' _ step run) h =
    let (e, n) = Step-Next l s s' step h in
    let (f, m) = Run-replay log s' s'' run n in
    (f ∙ (ap (replay log) e ∙ sym (replay-logged l log s.hosts)), m)

-- A log that does not delete the name.
abbrev pub Spares : String → List Act → Type 0
Spares name [] = Unit
Spares name (append_txt n v ∷ log) = Spares name log
Spares name (remove_txt n ∷ log) = (n ≢ name) × Spares name log

abbrev pub Has : HostRecord → List HostRecord → Type 0
Has r [] = ⊥
Has r (h ∷ hosts) = (h ≡ r) ⊎ Has r hosts

Has-append :
    (r : HostRecord) (hosts added : List HostRecord)
    → Has r hosts ⊎ Has r added
    → Has r (hosts ++ added)
Has-append r [] added (inl h) = absurd h
Has-append r [] added (inr h) = h
Has-append r (x ∷ hosts) added (inl (inl e)) = inl e
Has-append r (x ∷ hosts) added (inl (inr h)) = inr (Has-append r hosts added (inl h))
Has-append r (x ∷ hosts) added (inr h) = inr (Has-append r hosts added (inr h))

Has-without_txt :
    (r : HostRecord) (name : String) (hosts : List HostRecord)
    → is_txt_of name r ≡ false
    → Has r hosts
    → Has r (without_txt name hosts)
Has-without_txt r name [] e h = elim h [ ]
Has-without_txt r name (x ∷ hosts) e (inl same) = rw (same, e) (inl refl)
Has-without_txt r name (x ∷ hosts) e (inr h) =
    let ih = Has-without_txt r name hosts e h in
    elim (Bool-cases (is_txt_of name x)) [ inl t ↦ rw t ih | inr f ↦ rw f (inr ih) ]

is_txt_of-other :
    (name other value : String) → other ≢ name → is_txt_of other (txt_record name value) ≡ false
is_txt_of-other name other value ne = ground (arith, eq_iff name other, eq_iff other name)

Has-replay :
    (name value : String) (log : List Act) (hosts : List HostRecord)
    → Spares name log
    → Has (txt_record name value) hosts
    → Has (txt_record name value) (replay log hosts)
Has-replay name value [] hosts spares h = h
Has-replay name value (append_txt n v ∷ log) hosts spares h =
    Has-replay name value log (hosts ++ txt_record n v ∷ []) spares
      (Has-append (txt_record name value) hosts (txt_record n v ∷ []) (inl h))
Has-replay name value (remove_txt n ∷ log) hosts (ne, spares) h =
    Has-replay name value log (without_txt n hosts) spares
      (Has-without_txt (txt_record name value) n hosts (is_txt_of-other name n value ne) h)

replay-append :
    (log later : List Act) (hosts : List HostRecord)
    → replay (log ++ later) hosts ≡ replay later (replay log hosts)
replay-append [] later hosts = refl
replay-append (a ∷ log) later hosts = replay-append log later (apply a hosts)

-- Whatever the order of the steps of the tasks on one domain, and whichever of them fail, the lock
-- makes the records of the domain the same as if the operations that took effect had run one after
-- the other. So a TXT record that one of them appended is there until one deletes its name.
pub locked_replay :
    (log : List Act) (s s' : Shared)
    → s.inside ≡ []
    → Run s log s'
    → (s'.hosts ≡ replay log s.hosts)
      × ((before after : List Act) (name value : String)
          → log ≡ before ++ append_txt name value ∷ after
          → Spares name after
          → Has (txt_record name value) s'.hosts)
locked_replay log s s' empty run =
    let (e, _) = Run-replay log s s' run (rw empty tt) in
    (
      e,
      λ before after name value l spares.
          let start = replay before s.hosts in
          let at = replay-append before (append_txt name value ∷ after) s.hosts in
          subst (Has (txt_record name value)) (sym (e ∙ (ap (λ k. replay k s.hosts) l ∙ at))) (
            Has-replay name value after (start ++ txt_record name value ∷ []) spares (
              Has-append (txt_record name value) start (txt_record name value ∷ [])
                (inr (inl refl)))),
    )
