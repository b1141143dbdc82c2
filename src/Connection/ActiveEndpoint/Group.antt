-- ===== src/Connection/ActiveEndpoint/Group.antt =====
-- The setter of the active endpoint over the connections of a group.
use ctaps.Prelude.{
  ◌<◌, ◌≡◌, refl, inl, inr, Bool, false, some, List, [], ◌∷◌, ◌++◌, arith, length, All, Result, ok,
  err,
}
use ctaps.Endpoint.Address.{SockAddr}
use ctaps.Connection.ActiveEndpoint.{
  Endpoints, Copying, Setting, find_endpoint, set_active_endpoint, set_group_endpoint, IsInet,
  ActiveIs, Succeeds, Fails, set_active_endpoint_lem,
}

abbrev pub InBounds : Endpoints → Type 0
InBounds c = c.active_endpoint < length c.all_endpoints

first-ok :
    (r : Result (Unit {0})) (x : Result (Unit {0})) (t : Unit {0})
    → elim r as (λ _. Result (Unit {0})) [ ok _ ↦ x | err rc ↦ err rc ] ≡ ok t
    → (r ≡ ok tt) × (x ≡ ok tt)
first-ok (ok u) (ok v) t h = (refl, refl)
first-ok (ok u) (err e) t h = cc
first-ok (err e) x t h = cc

succeeded :
    (k : Copying) (e : SockAddr) (s : Setting)
    → IsInet e
    → InBounds s.endpoints
    → (set_active_endpoint k e s).0 ≡ ok tt
    → ActiveIs e (set_active_endpoint k e s).1.endpoints
unfolding Succeeds Fails
succeeded k e s f b h = elim (set_active_endpoint_lem k e s f b) [
  | inl p ↦ p.1
  | inr p ↦ cc (h, p.0.1)
]

-- If the setter over a group succeeds, every connection of the group has the address as its active
-- endpoint, provided that it is an Internet address and their active indices were in bounds.
pub set_group_endpoint-ActiveIs :
    (k : Copying) (e : SockAddr) (cs : List Endpoints) (changed : Bool)
    → IsInet e
    → All InBounds cs
    → (set_group_endpoint k e changed cs).0 ≡ ok tt
    → All (ActiveIs e) (set_group_endpoint k e changed cs).1.1
unfolding set_group_endpoint
set_group_endpoint-ActiveIs k e [] changed f b h = tt
set_group_endpoint-ActiveIs k e (c ∷ cs) changed f b h =
    let s : Setting = record { endpoints = c; changed = changed } in
    let (rest, one) = first-ok _ _ tt h in
    (
      succeeded k e s f b.0 one,
      set_group_endpoint-ActiveIs k e cs (set_active_endpoint k e s).1.changed f b.1 rest,
    )

-- If the last connection of the iteration has the address as its active endpoint already, the caller
-- reads in `changed` that nothing changed, whatever was changed in the connections before it.
pub set_group_endpoint-changed :
    (k : Copying) (e : SockAddr) (cs : List Endpoints) (changed : Bool) (c : Endpoints)
    → find_endpoint e c.all_endpoints 0 ≡ some c.active_endpoint
    → (set_group_endpoint k e changed (cs ++ (c ∷ []))).1.0 ≡ false
unfolding set_group_endpoint set_active_endpoint
set_group_endpoint-changed k e [] changed c h = rw (h, set_active_endpoint) (ground arith)
set_group_endpoint-changed k e (x ∷ cs) changed c h = set_group_endpoint-changed k e cs _ c h
