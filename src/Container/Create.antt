-- ===== src/Container/Create.antt =====
-- The container table of virtualization/containers/container.c: its invariant, and `container_create`.
use homeserver_os.Base.{
  ℕ, suc, ◌+◌, ◌^◌, ◌<◌, ◌≤◌, ◌≡◌, ◌≢◌, ◌↔◌, refl, sym, ◌∙◌, true, false, List, [], ◌∷◌, ◌++◌,
  arith, length, Option, none, some, take, Bool-cases, inl, inr,
}
use homeserver_os.Base.Int.{at_least, rounds, rounds-lt, rounds-le}
use homeserver_os.Base.Text.{text, text-copy_text, length-copy_text}
use homeserver_os.Base.Table.{find, write_at}
use homeserver_os.Base.Table.Ids.{has_id, find-append_self, find-append_other}
use homeserver_os.Base.Table.Slots.{All-get_elem?}
use homeserver_os.Base.Table.Laws.{write_at-Wrote, write_at-none, find_first-eq-find}
use homeserver_os.Base.Table.Valid.{IsTable, write_at-in_bounds, IsTable-write_at, find_next}
use homeserver_os.Container.{
  Containers, Container, stopped, starting, stopping, Limits, container_id, fill_container, create,
  get, inc, max_containers, limits_or, default_limits,
}
use mathlib.Core.Option
use native.Mathlib.Decide.{dec_lt}

-- The containers that exist, in the order of the table.
abbrev pub live : Containers → List Container
live s = take s.count s.containers

-- A slot of `containers`: its arrays have the declared sizes, no more ports are exposed than fit, and
-- its state is one of the three that a container has between two calls.
pub record IsSlot (v : Container) : Type 0 where
  pub name_size : length v.name ≡ 64
  pub image_size : length v.image ≡ 128
  pub ports_size : length v.exposed_ports ≡ 16
  pub ports_fit : v.port_count ≤ 16
  pub not_starting : v.state ≢ starting
  pub not_stopping : v.state ≢ stopping

-- Between two calls.
abbrev pub IsValid : Containers → Type 0
IsValid s = IsTable container_id IsSlot max_containers s.containers s.count s.next_id

pub get-eq-find : (id : ℕ) (s : Containers) → get id s ≡ find (has_id container_id id) (live s)
unfolding get
get-eq-find id s = find_first-eq-find (has_id container_id id) s.count s.containers

-- The parameters of one call of `container_create`.
module _ (name image : List ℕ) (limits : Option Limits) where
  abbrev fill : ℕ → Container → Container
  fill id = fill_container id name image limits

  -- A stopped container with the parameters of the call, its two texts cut to their buffers.
  pub record IsNew (id : ℕ) (v : Container) : Type 0 where
    pub named : v.id ≡ id
    pub called : text v.name ≡ take 63 (text name)
    pub from_image : text v.image ≡ take 127 (text image)
    pub is_stopped : v.state ≡ stopped
    pub limited : v.limits ≡ limits_or default_limits limits
    pub no_process : v.pid ≡ 0
    pub no_port : v.port_count ≡ 0

  fill-IsNew : (id : ℕ) (v : Container) → IsSlot v → IsNew id (fill id v)
  unfolding fill_container
  fill-IsNew id v h = record {
    named = refl;
    called = text-copy_text 63 name v.name (omega (arith, h.name_size));
    from_image = text-copy_text 127 image v.image (omega (arith, h.image_size));
    is_stopped = refl;
    limited = refl;
    no_process = refl;
    no_port = refl;
  }

  fill-id : (id : ℕ) (v : Container) → container_id (fill id v) ≡ id
  unfolding fill_container
  fill-id id v = refl

  fill-IsSlot : (id : ℕ) (v : Container) → IsSlot v → IsSlot (fill id v)
  unfolding fill_container
  fill-IsSlot id v h = record {
    name_size = length-copy_text 63 name v.name ∙ h.name_size;
    image_size = length-copy_text 127 image v.image ∙ h.image_size;
    ports_size = h.ports_size;
    ports_fit = omega arith;
    not_starting = λ e. cc;
    not_stopping = λ e. cc;
  }

  -- What a successful `container_create` leaves: the new container under a fresh id, the others as they were.
  pub record Added (s t : Containers) : Type 0 where
    pub container : Container
    pub is_new : IsNew s.next_id container
    pub fresh : get s.next_id s ≡ none
    pub found : get s.next_id t ≡ some container
    pub others : (j : ℕ) → j ≢ s.next_id → get j t ≡ get j s
    pub appended : live t ≡ live s ++ container ∷ []
    pub more : t.count ≡ s.count + 1
    pub counter : t.next_id ≡ s.next_id + 1
    pub valid : IsValid t

  -- In a valid table, below the limit, with a slot left and an id counter below its last value,
  -- `container_create` returns the counter and appends a stopped container with the parameters of the call
  -- under that id; no other container changes, and the table stays valid.
  pub create-Added :
      (s : Containers)
      → IsValid s
      → at_least s.count s.max ≡ false
      → s.count < max_containers
      → s.next_id + 1 < 2 ^ 32
      → (t : Containers) × (create name image limits s ≡ some (s.next_id, t)) × Added s t
  unfolding create
  create-Added s v below room small =
      let (cs, e) = write_at-in_bounds container_id IsSlot v (fill s.next_id) room in
      let w = write_at-Wrote s.count (fill s.next_id) s.containers e in
      let next : s.count + 1 ≡ suc s.count = omega arith in
      let exact : inc s.next_id ≡ s.next_id + 1 = omega arith in
      let t : Containers = record s {
        containers = cs;
        count = s.count + 1;
        next_id = inc s.next_id;
      } in
      let appended : live t ≡ live s ++ fill s.next_id w.old ∷ [] = rw next w.live in
      let free : find (has_id container_id s.next_id) (live s) ≡ none =
        find_next container_id IsSlot v in
      (
        t,
        rw (below, e),
        record {
          container = fill s.next_id w.old;
          is_new =
              fill-IsNew s.next_id w.old (All-get_elem? IsSlot s.count s.containers v.slots w.slot);
          fresh = get-eq-find s.next_id s ∙ free;
          found =
              rw (get-eq-find s.next_id t, appended)
                (find-append_self container_id s.next_id (live s) (fill s.next_id w.old) free
                  (fill-id s.next_id w.old));
          others = λ j ne.
              rw (get-eq-find j t, get-eq-find j s, appended)
                (find-append_other container_id j (live s) (fill s.next_id w.old)
                  (λ q. ne (sym q ∙ fill-id s.next_id w.old)));
          appended = appended;
          more = refl;
          counter = exact;
          valid =
              IsTable-write_at container_id IsSlot v (fill s.next_id) (fill-id s.next_id)
                (fill-IsSlot s.next_id) e room small;
        },
      )

  -- At the limit nothing changes, and 0 is returned.
  pub create-full :
      (s : Containers) → at_least s.count s.max ≡ true → create name image limits s ≡ some (0, s)
  unfolding create
  create-full s full = rw full

  -- `container_create` writes past the end of `containers` exactly where the table is full and the limit that
  -- `container_set_max` took is larger than the table.
  pub create-none_iff :
      (s : Containers)
      → IsValid s
      → (create name image limits s ≡ none)
        ↔ ((s.count ≡ max_containers) × (max_containers < rounds s.max))
  unfolding create
  create-none_iff s v = elim (Bool-cases (at_least s.count s.max)) [
    | inl full ↦
        (λ e. absurd (cc (e, full)), λ h. absurd (omega (arith, rounds-le s.count s.max full)))
    | inr below ↦ (
      forward below,
      λ h. rw (below, write_at-none s.count (fill s.next_id) s.containers (omega arith)),
    )
  ]
    where
      forward :
          at_least s.count s.max ≡ false
          → create name image limits s ≡ none
          → (s.count ≡ max_containers) × (max_containers < rounds s.max)
      forward below e =
          let faulted : write_at s.count (fill s.next_id) s.containers ≡ none =
            (Option.map-eq-none_iff _ _).0 (rw below at e) in
          let over = rounds-lt s.count s.max below in
          elim (dec_lt s.count max_containers) [
            | yes room ↦
                let (cs, q) = write_at-in_bounds container_id IsSlot v (fill s.next_id) room in
                absurd (cc (q, faulted))
            | no full ↦ (omega arith, omega arith)
          ]
