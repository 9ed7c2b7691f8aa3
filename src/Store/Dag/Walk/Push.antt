-- ===== src/Store/Dag/Walk/Push.antt =====
-- What a pop of the priority queue takes, and what a round pushes.
use synapse_fs.Core.Oid.{Oid}
use synapse_fs.Core.Error.{Result, ok, err, Result-cases}
use synapse_fs.Store.Dag.{Commit, contains}
use synapse_fs.Store.Dag.Search.{Member, contains→Member}
use synapse_fs.Store.Dag.Walk.{QueueEntry, entry_lt, pop_max, push_new}
use synapse_fs.Prelude.{suc, ◌≡◌, refl, ap, ◌⊎◌, inl, inr, List, [], ◌∷◌, Bool-cases, length}

-- The queue holds the commit.
abbrev pub Waits : Oid → List QueueEntry → Type 0
Waits o [] = ⊥
Waits o (e ∷ es) = (e.oid ≡ o) ⊎ Waits o es

pub pop_max-Waits :
    (best : QueueEntry) (es : List QueueEntry) (o : Oid)
    → Waits o (best ∷ es)
    → ((pop_max best es).0.oid ≡ o) ⊎ Waits o (pop_max best es).1
unfolding pop_max
pop_max-Waits best [] o w = w
pop_max-Waits best (e ∷ es) o w = elim (Bool-cases (entry_lt best e)) [
  | inl up ↦ rw up (there e best w (pop_max-Waits e es o))
  | inr down ↦ rw down (stay w (pop_max-Waits best es o))
]
  where
    there :
        (e b : QueueEntry)
        → (b.oid ≡ o) ⊎ ((e.oid ≡ o) ⊎ Waits o es)
        → (Waits o (e ∷ es) → ((pop_max e es).0.oid ≡ o) ⊎ Waits o (pop_max e es).1)
        → ((pop_max e es).0.oid ≡ o) ⊎ ((b.oid ≡ o) ⊎ Waits o (pop_max e es).1)
    there e b (inl h) ih = inr (inl h)
    there e b (inr h) ih = elim (ih h) [ inl x ↦ inl x | inr x ↦ inr (inr x) ]

    stay :
        (best.oid ≡ o) ⊎ ((e.oid ≡ o) ⊎ Waits o es)
        → (Waits o (best ∷ es) → ((pop_max best es).0.oid ≡ o) ⊎ Waits o (pop_max best es).1)
        → ((pop_max best es).0.oid ≡ o) ⊎ ((e.oid ≡ o) ⊎ Waits o (pop_max best es).1)
    stay (inl h) ih = elim (ih (inl h)) [ inl x ↦ inl x | inr x ↦ inr (inr x) ]
    stay (inr (inl h)) ih = inr (inl h)
    stay (inr (inr h)) ih = elim (ih (inr h)) [ inl x ↦ inl x | inr x ↦ inr (inr x) ]

pub Waits-pop_max :
    (best : QueueEntry) (es : List QueueEntry) (o : Oid)
    → ((pop_max best es).0.oid ≡ o) ⊎ Waits o (pop_max best es).1
    → Waits o (best ∷ es)
unfolding pop_max
Waits-pop_max best [] o w = w
Waits-pop_max best (e ∷ es) o w = elim (Bool-cases (entry_lt best e)) [
  | inl up ↦ from_up (rw up at w) (Waits-pop_max e es o)
  | inr down ↦ from_down (rw down at w) (Waits-pop_max best es o)
]
  where
    from_up :
        ((pop_max e es).0.oid ≡ o) ⊎ ((best.oid ≡ o) ⊎ Waits o (pop_max e es).1)
        → (((pop_max e es).0.oid ≡ o) ⊎ Waits o (pop_max e es).1 → Waits o (e ∷ es))
        → (best.oid ≡ o) ⊎ ((e.oid ≡ o) ⊎ Waits o es)
    from_up (inl h) ih = inr (ih (inl h))
    from_up (inr (inl h)) ih = inl h
    from_up (inr (inr h)) ih = inr (ih (inr h))

    from_down :
        ((pop_max best es).0.oid ≡ o) ⊎ ((e.oid ≡ o) ⊎ Waits o (pop_max best es).1)
        → (((pop_max best es).0.oid ≡ o) ⊎ Waits o (pop_max best es).1 → Waits o (best ∷ es))
        → (best.oid ≡ o) ⊎ ((e.oid ≡ o) ⊎ Waits o es)
    from_down (inl h) ih = elim (ih (inl h)) [ inl x ↦ inl x | inr x ↦ inr (inr x) ]
    from_down (inr (inl h)) ih = inr (inl h)
    from_down (inr (inr h)) ih = elim (ih (inr h)) [ inl x ↦ inl x | inr x ↦ inr (inr x) ]

pub length-pop_max :
    (best : QueueEntry) (es : List QueueEntry) → length (pop_max best es).1 ≡ length es
unfolding pop_max
length-pop_max best [] = refl
length-pop_max best (e ∷ es) = elim (Bool-cases (entry_lt best e)) [
  | inl up ↦ rw up (ap suc (length-pop_max e es))
  | inr down ↦ rw down (ap suc (length-pop_max best es))
]

-- What a round's pushes leave of the commits seen and of the queue.
pub record Pushed (ps seen : List Oid) (pq : List QueueEntry) (seen' : List Oid)
    (pq' : List QueueEntry) : Type 0 where
  pub keeps : (o : Oid) → Member o seen → Member o seen'
  pub adds : (o : Oid) → Member o ps → Member o seen'
  pub no_more : (o : Oid) → Member o seen' → Member o seen ⊎ Member o ps
  pub waits : (o : Oid) → Waits o pq → Waits o pq'
  pub new_waits : (o : Oid) → Member o seen' → Member o seen ⊎ Waits o pq'
  pub is_seen : (o : Oid) → Waits o pq' → Waits o pq ⊎ Member o seen'

pub push_new-Pushed :
    (read : Oid → Result Commit) (ps seen : List Oid) (pq : List QueueEntry) (seen' : List Oid)
    (pq' : List QueueEntry)
    → push_new read ps seen pq ≡ ok (seen', pq')
    → Pushed ps seen pq seen' pq'
unfolding push_new
push_new-Pushed read [] seen pq seen' pq' h =
    let same_seen : seen ≡ seen' = cc in
    let same_pq : pq ≡ pq' = cc in
    rw (← same_seen, ← same_pq)
      (record {
        keeps = λ o m. m;
        adds = λ o m. elim m [ ];
        no_more = λ o m. inl m;
        waits = λ o w. w;
        new_waits = λ o m. inl m;
        is_seen = λ o w. inl w;
      })
push_new-Pushed read (p ∷ ps) seen pq seen' pq' h = elim (Bool-cases (contains seen p)) [
  | inl old ↦
      let ih = push_new-Pushed read ps seen pq seen' pq' (rw old at h) in
      record {
        keeps = ih.keeps;
        adds = λ o m. elim m [
          | inl e ↦ ih.keeps o (rw e at (contains→Member seen p old))
          | inr rest ↦ ih.adds o rest
        ];
        no_more = λ o m. elim (ih.no_more o m) [ inl x ↦ inl x | inr x ↦ inr (inr x) ];
        waits = ih.waits;
        new_waits = ih.new_waits;
        is_seen = ih.is_seen;
      }
  | inr new ↦ elim (Result-cases (read p)) [
    | inl (kind, failed) ↦ let clash : err kind ≡ ok (seen', pq') = rw (new, failed) at h in cc
    | inr (c, found) ↦
        let entry : QueueEntry = record { timestamp = c.timestamp; oid = p } in
        let ih = push_new-Pushed read ps (p ∷ seen) (entry ∷ pq) seen' pq' (rw (new, found) at h) in
        record {
          keeps = λ o m. ih.keeps o (inr m);
          adds = λ o m. elim m [ inl e ↦ ih.keeps o (inl e) | inr rest ↦ ih.adds o rest ];
          no_more = λ o m. elim (ih.no_more o m) [
            | inl (inl e) ↦ inr (inl e)
            | inl (inr x) ↦ inl x
            | inr x ↦ inr (inr x)
          ];
          waits = λ o w. ih.waits o (inr w);
          new_waits = λ o m. elim (ih.new_waits o m) [
            | inl (inl e) ↦ inr (ih.waits o (inl e))
            | inl (inr x) ↦ inl x
            | inr w ↦ inr w
          ];
          is_seen = λ o w. elim (ih.is_seen o w) [
            | inl (inl e) ↦ inr (ih.keeps o (inl e))
            | inl (inr x) ↦ inl x
            | inr x ↦ inr x
          ];
        }
  ]
]
