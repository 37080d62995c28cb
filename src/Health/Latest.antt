-- ===== src/Health/Latest.antt =====
-- What the tables hold after a sequence of heartbeats.
use airgap_videowall.Prelude.{
  ℕ, String, ◌≡◌, refl, ap, ◌∙◌, inl, inr, true, false, Option, none, some, List, [], ◌∷◌, ◌++◌,
  arith, Bool-cases, ◌==◌, beq_self, eq_of_beq, elem, In, here, there,
}
use airgap_videowall.Prelude.Dict.{Dict, get, keys, put, get-put}
use airgap_videowall.Values.{ℤ, int_eq}
use airgap_videowall.Health.Heartbeats.{
  set_status, Tables, Columns, write_source, beats, Health, source_row, has_source, sync_status,
  Beat, write_wall, Heartbeat, heartbeat_wall, heartbeat_source, wall_beat, wall_row, source_beat,
  Answer,
}

keys-set_status :
    (id : ℤ) (status : String) (d : Dict ℤ String) → keys (set_status id status d) ≡ keys d
unfolding set_status
keys-set_status id status [] = refl
keys-set_status id status ((k, s) ∷ d) = elim (Bool-cases (k == id)) [
  | inl e ↦ rw e (ap (λ ks. k ∷ ks) (keys-set_status id status d))
  | inr e ↦ rw e (ap (λ ks. k ∷ ks) (keys-set_status id status d))
]

get-set_status :
    (id : ℤ) (status : String) (d : Dict ℤ String)
    → elem id (keys d) ≡ true
    → get (set_status id status d) id ≡ some status
unfolding set_status get
get-set_status id status [] h = absurd (cc)
get-set_status id status ((k, s) ∷ d) h = elim (Bool-cases (k == id)) [
  | inl e ↦ rw (e, get, e) refl
  | inr e ↦
      let apart : (id == k) ≡ false = ground (arith, int_eq.same_iff k id, int_eq.same_iff id k) in
      rw (e, get, e) (get-set_status id status d (rw apart at h))
]

get-set_status_other :
    (id j : ℤ) (status : String) (d : Dict ℤ String)
    → (id == j) ≡ false
    → get (set_status id status d) j ≡ get d j
unfolding set_status get
get-set_status_other id j status [] n = refl
get-set_status_other id j status ((k, s) ∷ d) n = elim (Bool-cases (k == id)) [
  | inl e ↦
      let same = eq_of_beq k id e in
      let apart : (k == j) ≡ false = rw same n in
      rw (e, get, apart) (get-set_status_other id j status d n)
  | inr e ↦ elim (Bool-cases (k == j)) [
    | inl f ↦ rw (e, get, f) refl
    | inr f ↦ rw (e, get, f) (get-set_status_other id j status d n)
  ]
]

-- the status that the reports and the management API read from `sources`
unfoldable pub status_of : ℤ → Option (Dict ℤ String) → Option String
unfolding get
status_of id none = none
status_of id (some d) = get d id

-- The tables refer to the same walls and sources.
record SameIds (t s : Tables) : Type 0 where
  references : s.has_references ≡ t.has_references
  sources : (id : ℤ) → has_source id s.health_status ≡ has_source id t.health_status

module _ (cols : Columns) where
  SameIds-source_row :
      (t s : Tables)
      → SameIds t s
      → (now : ℕ) (hb : Heartbeat) → source_row cols s now hb ≡ source_row cols t now hb
  unfolding source_row
  SameIds-source_row t s same now hb = rw (same.references, same.sources hb.id) refl

  has_source-sync :
      (hb : Heartbeat) (o : Option (Dict ℤ String)) (id : ℤ)
      → has_source id (sync_status hb o) ≡ has_source id o
  unfolding has_source sync_status
  has_source-sync hb none id = refl
  has_source-sync hb (some d) id = ap (elem id) (keys-set_status hb.id hb.status d)

  wall-SameIds :
      (t s : Tables) (now : ℕ) (hb : Heartbeat) (o : Option Health)
      → SameIds t s
      → SameIds t (write_wall now hb o s).0
  unfolding write_wall
  wall-SameIds t s now hb none same = same
  wall-SameIds t s now hb (some h) same = record {
    references = same.references;
    sources = same.sources;
  }

  source-SameIds :
      (t s : Tables) (now : ℕ) (hb : Heartbeat) (o : Option Health)
      → SameIds t s
      → SameIds t (write_source now hb o s).0
  unfolding write_source
  source-SameIds t s now hb none same = same
  source-SameIds t s now hb (some h) same = record {
    references = same.references;
    sources = λ id. has_source-sync hb s.health_status id ∙ same.sources id;
  }

  -- The heartbeat `hb` of a source is the last one that is stored.
  abbrev pub IsLast : Tables → ℤ → List Beat → Type 0
  IsLast t id after =
      (now : ℕ) (hb : Heartbeat)
      → In (source_beat now hb) after
      → hb.id ≡ id
      → source_row cols t now hb ≡ none

  -- What the tables have of a source.
  abbrev shown : ℤ → Tables → Option Health × Option String
  shown id t = (get t.source_health id, status_of id t.health_status)

  wall-shown :
      (id : ℤ) (now : ℕ) (hb : Heartbeat) (o : Option Health) (t : Tables)
      → shown id (write_wall now hb o t).0 ≡ shown id t
  unfolding write_wall
  wall-shown id now hb none t = refl
  wall-shown id now hb (some h) t = refl

  status_of-other :
      (hb : Heartbeat) (id : ℤ) (o : Option (Dict ℤ String))
      → (hb.id == id) ≡ false
      → status_of id (sync_status hb o) ≡ status_of id o
  unfolding status_of sync_status
  status_of-other hb id none n = refl
  status_of-other hb id (some d) n = get-set_status_other hb.id id hb.status d n

  source-shown :
      (id : ℤ) (now : ℕ) (hb : Heartbeat) (o : Option Health) (t : Tables)
      → ((hb.id == id) ≡ true → o ≡ none)
      → shown id (write_source now hb o t).0 ≡ shown id t
  unfolding write_source
  source-shown id now hb none t h = refl
  source-shown id now hb (some r) t h = elim (Bool-cases (hb.id == id)) [
    | inl e ↦ absurd (cc (h e))
    | inr e ↦
        let kept : get (put t.source_health hb.id r) id ≡ get t.source_health id =
          get-put t.source_health hb.id id r ∙ rw e refl in
        cc (kept, status_of-other hb id t.health_status e)
  ]

  beats-shown :
      (t s : Tables) (id : ℤ) (after : List Beat)
      → SameIds t s
      → IsLast t id after
      → shown id (beats cols after s) ≡ shown id s
  unfolding beats heartbeat_wall heartbeat_source
  beats-shown t s id [] same last = refl
  beats-shown t s id (wall_beat now hb ∷ bs) same last =
      let o = wall_row cols s now hb in
      beats-shown t (write_wall now hb o s).0 id bs (wall-SameIds t s now hb o same)
        (λ n b m. last n b (there m))
      ∙ wall-shown id now hb o s
  beats-shown t s id (source_beat now hb ∷ bs) same last =
      let o = source_row cols s now hb in
      beats-shown t (write_source now hb o s).0 id bs (source-SameIds t s now hb o same)
        (λ n b m. last n b (there m))
      ∙ source-shown id now hb o s
          (λ e. SameIds-source_row t s same now hb ∙ last now hb (here refl) (eq_of_beq hb.id id e))

  beats-SameIds : (t s : Tables) (bs : List Beat) → SameIds t s → SameIds t (beats cols bs s)
  unfolding beats heartbeat_wall heartbeat_source
  beats-SameIds t s [] same = same
  beats-SameIds t s (wall_beat now hb ∷ bs) same =
      let o = wall_row cols s now hb in
      beats-SameIds t (write_wall now hb o s).0 bs (wall-SameIds t s now hb o same)
  beats-SameIds t s (source_beat now hb ∷ bs) same =
      let o = source_row cols s now hb in
      beats-SameIds t (write_source now hb o s).0 bs (source-SameIds t s now hb o same)

  beats-append :
      (xs bs : List Beat) (t : Tables) → beats cols (xs ++ bs) t ≡ beats cols bs (beats cols xs t)
  unfolding beats
  beats-append [] bs t = refl
  beats-append (wall_beat now hb ∷ xs) bs t = beats-append xs bs _
  beats-append (source_beat now hb ∷ xs) bs t = beats-append xs bs _

  status_of-sync :
      (hb : Heartbeat) (o : Option (Dict ℤ String))
      → has_source hb.id o ≡ true
      → status_of hb.id (sync_status hb o) ≡ some hb.status
  unfolding status_of sync_status has_source
  status_of-sync hb none h = absurd (cc)
  status_of-sync hb (some d) h = get-set_status hb.id hb.status d h

  -- After a sequence of heartbeats, of which a source's may be refused for what the columns or the
  -- foreign keys do not take, the row of the source is that of its last heartbeat that was not, and
  -- so is its status in `sources`, if it stands there: later heartbeats of other ids, of walls and
  -- those that are refused leave both as they are.
  pub beats-last :
      (before after : List Beat) (now : ℕ) (hb : Heartbeat) (h : Health) (t : Tables)
      → source_row cols t now hb ≡ some h
      → IsLast t hb.id after
      → let s = beats cols (before ++ source_beat now hb ∷ after) t in
        (get s.source_health hb.id ≡ some h)
        × (has_source hb.id t.health_status ≡ true
            → status_of hb.id s.health_status ≡ some hb.status)
  unfolding beats heartbeat_source write_source
  beats-last before after now hb h t e last =
      let s₀ = beats cols before t in
      let same = beats-SameIds t t before (record { references = refl; sources = λ id. refl }) in
      let s₁ = (write_source now hb (some h) s₀).0 in
      let stored : heartbeat_source cols now hb s₀ ≡ write_source now hb (some h) s₀ =
        ap (λ o. write_source now hb o s₀) (SameIds-source_row t s₀ same now hb ∙ e) in
      let whole : beats cols (before ++ source_beat now hb ∷ after) t ≡ beats cols after s₁ =
        beats-append before (source_beat now hb ∷ after) t
        ∙ ap (λ (r : Tables × Answer). beats cols after r.0) stored in
      let seen =
        ap (shown hb.id) whole
        ∙ beats-shown t s₁ hb.id after (source-SameIds t s₀ now hb (some h) same) last in
      let row : get s₁.source_health hb.id ≡ some h =
        get-put s₀.source_health hb.id hb.id h ∙ rw (beq_self hb.id) refl in
      (
        ap (λ (p : Option Health × Option String). p.0) seen ∙ row,
        λ known.
            ap (λ (p : Option Health × Option String). p.1) seen
            ∙ status_of-sync hb s₀.health_status (same.sources hb.id ∙ known),
      )
