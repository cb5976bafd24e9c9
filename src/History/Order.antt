-- ===== src/History/Order.antt =====
-- Sorting by id: the list that `pushMessage` of client/js/app.js leaves.
use lattix.Prelude.{
  ℕ, ◌+◌, ◌<◌, ◌≡◌, ◌≢◌, refl, Bool, List, [], ◌∷◌, ◌++◌, any, length, All, All-append, All_map, ap,
  ◌∙◌, arith, leb, ◌||◌, Bool-cases, inl, inr,
}
use lattix.History.{Message, insert_by_id, sort_by_id}

-- Strictly ascending ids, so none twice.
abbrev pub Ascending : List Message → Type 0
Ascending [] = Unit {0}
Ascending (m ∷ ms) = All (λ n. m.id < n.id) ms × Ascending ms

abbrev pub Absent : ℕ → List Message → Type 0
Absent id = All (λ n. n.id ≢ id)

All-insert_by_id :
    (P : Message → Type 0) (m : Message) (ms : List Message)
    → P m
    → All P ms
    → All P (insert_by_id m ms)
unfolding insert_by_id
All-insert_by_id P m [] h hs = (h, tt)
All-insert_by_id P m (n ∷ ns) h hs = elim (Bool-cases (leb m.id n.id)) [
  | inl e ↦ rw (e, insert_by_id) (h, hs)
  | inr e ↦ rw (e, insert_by_id) (hs.0, All-insert_by_id P m ns h hs.1)
]

pub All-sort_by_id : (P : Message → Type 0) (ms : List Message) → All P ms → All P (sort_by_id ms)
unfolding sort_by_id
All-sort_by_id P [] h = tt
All-sort_by_id P (m ∷ ms) h = All-insert_by_id P m (sort_by_id ms) h.0 (All-sort_by_id P ms h.1)

Ascending-insert_by_id :
    (m : Message) (ms : List Message)
    → Absent m.id ms
    → Ascending ms
    → Ascending (insert_by_id m ms)
unfolding insert_by_id
Ascending-insert_by_id m [] h a = (tt, tt)
Ascending-insert_by_id m (n ∷ ns) h a = elim (Bool-cases (leb m.id n.id)) [
  | inl e ↦
      let lt : m.id < n.id = ground (arith, h.0) in
      rw (e, insert_by_id) ((lt, All_map _ _ ns (λ k q. omega arith) a.0), a)
  | inr e ↦
      rw (e, insert_by_id)
        (All-insert_by_id _ m ns (ground arith) a.0, Ascending-insert_by_id m ns h.1 a.1)
]

-- Adding one message of a new id to an ascending list and sorting gives an ascending list.
pub Ascending-sort_append :
    (ms : List Message) (m : Message)
    → Absent m.id ms
    → Ascending ms
    → Ascending (sort_by_id (ms ++ m ∷ []))
unfolding sort_by_id
Ascending-sort_append [] m h a = unfold insert_by_id in (tt, tt)
Ascending-sort_append (n ∷ ns) m h a =
    Ascending-insert_by_id n (sort_by_id (ns ++ m ∷ []))
      (All-sort_by_id _ (ns ++ m ∷ []) (absent ns a.0)) (Ascending-sort_append ns m h.1 a.1)
  where
    absent : (ks : List Message) → All (λ k. n.id < k.id) ks → All (λ k. k.id ≢ n.id) (ks ++ m ∷ [])
    absent [] q = ((λ e. h.0 (cc)), tt)
    absent (k ∷ ks) q = ((λ e. absurd (omega arith)), absent ks q.1)

length-insert_by_id : (m : Message) (ms : List Message) → length (insert_by_id m ms) ≡ length ms + 1
unfolding insert_by_id
length-insert_by_id m [] = refl
length-insert_by_id m (n ∷ ns) = ground (arith, length-insert_by_id m ns)

pub length-sort_by_id : (ms : List Message) → length (sort_by_id ms) ≡ length ms
unfolding sort_by_id
length-sort_by_id [] = refl
length-sort_by_id (m ∷ ms) =
    ground (arith, length-sort_by_id ms, length-insert_by_id m (sort_by_id ms))

-- Sorting keeps the elements.
any-insert_by_id :
    (p : Message → Bool) (m : Message) (ms : List Message)
    → any p (insert_by_id m ms) ≡ (p m || any p ms)
unfolding insert_by_id
any-insert_by_id p m [] = refl
any-insert_by_id p m (n ∷ ns) = ground (arith, any-insert_by_id p m ns)

pub any-sort_by_id : (p : Message → Bool) (ms : List Message) → any p (sort_by_id ms) ≡ any p ms
unfolding sort_by_id
any-sort_by_id p [] = refl
any-sort_by_id p (m ∷ ms) =
    ground (arith, any-insert_by_id p m (sort_by_id ms), any-sort_by_id p ms)

insert_by_id_first :
    (m : Message) (ms : List Message) → All (λ n. m.id < n.id) ms → insert_by_id m ms ≡ m ∷ ms
unfolding insert_by_id
insert_by_id_first m [] h = refl
insert_by_id_first m (n ∷ ns) h = ground (arith, h.0)

-- Sorting leaves an ascending list as it is.
pub sort_by_id-Ascending : (ms : List Message) → Ascending ms → sort_by_id ms ≡ ms
unfolding sort_by_id
sort_by_id-Ascending [] a = refl
sort_by_id-Ascending (m ∷ ms) a =
    ap (insert_by_id m) (sort_by_id-Ascending ms a.1) ∙ insert_by_id_first m ms a.0

pub Ascending-append_last :
    (ms : List Message) (m : Message)
    → Ascending ms
    → All (λ n. n.id < m.id) ms
    → Ascending (ms ++ m ∷ [])
Ascending-append_last [] m a h = (tt, tt)
Ascending-append_last (n ∷ ns) m a h =
    (All-append _ ns (m ∷ []) a.0 (h.0, tt), Ascending-append_last ns m a.1 h.1)
