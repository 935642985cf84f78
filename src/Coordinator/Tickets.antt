-- ===== src/Coordinator/Tickets.antt =====
-- The tables of routes and answers: how often a ticket stands in them, and how they change.
use kazibee_home.Prelude.{
  ℕ, String, ◌+◌, ◌≤◌, ◌<◌, ◌==◌, ltb, if◌then◌else◌, false, ◌≡◌, refl, some, List, [], ◌∷◌, arith,
  eq_iff,
}
use kazibee_home.Prelude.Map
use kazibee_home.Prelude.Map.{Map, IsUnique}
use kazibee_home.Coordinator.State.{Response, max_inflight_routes, InflightRoute}
use kazibee_home.Coordinator.Desk.{Desk}
use kazibee_home.Coordinator.Routes.{routes_kept, routes_lost, lost_reply}

-- How many routes hold a ticket, and how many answers were given to it.
unfoldable pub waiting : ℕ → Map InflightRoute → ℕ
waiting t [] = 0
waiting t ((k, r) ∷ m) = (if r.ticket == t then 1 else 0) + waiting t m

unfoldable pub answers : ℕ → List (ℕ × Response) → ℕ
answers t [] = 0
answers t ((u, x) ∷ xs) = (if u == t then 1 else 0) + answers t xs

pub record IsSettled (d : Desk) : Type 0 where
  pub unique : IsUnique d.routes
  pub exact :
      (t : ℕ) → waiting t d.routes + answers t d.replies ≡ (if ltb t d.tickets then 1 else 0)
  pub bounded : Map.size d.routes ≤ max_inflight_routes

pub waiting-delete_absent :
    (t : ℕ) (k : String) (m : Map InflightRoute)
    → Map.has k m ≡ false
    → waiting t (Map.delete k m) ≡ waiting t m
unfolding waiting Map.delete Map.get
waiting-delete_absent t k [] h = refl
waiting-delete_absent t k ((j, r) ∷ m) h = ground (arith, waiting-delete_absent t k m)

pub waiting-delete :
    (t : ℕ) (k : String) (r : InflightRoute) (m : Map InflightRoute)
    → IsUnique m
    → Map.get k m ≡ some r
    → waiting t m ≡ waiting t (Map.delete k m) + (if r.ticket == t then 1 else 0)
unfolding waiting Map.delete Map.get
waiting-delete t k r [] u e = cc
waiting-delete t k r ((j, q) ∷ m) u e =
    ground (arith, eq_iff j k, waiting-delete t k r m u.1, waiting-delete_absent t k m)

pub waiting-set_new :
    (t : ℕ) (k : String) (r : InflightRoute) (m : Map InflightRoute)
    → Map.has k m ≡ false
    → waiting t (Map.set k r m) ≡ waiting t m + (if r.ticket == t then 1 else 0)
unfolding waiting Map.set Map.get
waiting-set_new t k r [] h = ground arith
waiting-set_new t k r ((j, q) ∷ m) h = ground (arith, waiting-set_new t k r m)

pub waiting-set_old :
    (t : ℕ) (k : String) (q r : InflightRoute) (m : Map InflightRoute)
    → Map.get k m ≡ some q
    → r.ticket ≡ q.ticket
    → waiting t (Map.set k r m) ≡ waiting t m
unfolding waiting Map.set Map.get
waiting-set_old t k q r [] e h = cc
waiting-set_old t k q r ((j, p) ∷ m) e h = ground (arith, waiting-set_old t k q r m)

pub waiting-kept :
    (t : ℕ) (f : String) (m : Map InflightRoute) (xs : List (ℕ × Response))
    → waiting t (routes_kept f m) + answers t (routes_lost f m xs) ≡ waiting t m + answers t xs
unfolding waiting answers routes_kept routes_lost
waiting-kept t f [] xs = refl
waiting-kept t f ((k, r) ∷ m) xs =
    ground (arith, waiting-kept t f m xs, waiting-kept t f m ((r.ticket, lost_reply r) ∷ xs))

pub has-routes_kept :
    (f k : String) (m : Map InflightRoute)
    → Map.has k m ≡ false
    → Map.has k (routes_kept f m) ≡ false
unfolding routes_kept Map.get
has-routes_kept f k [] h = refl
has-routes_kept f k ((j, r) ∷ m) h = ground (arith, has-routes_kept f k m)

pub routes_kept-IsUnique :
    (f : String) (m : Map InflightRoute) → IsUnique m → IsUnique (routes_kept f m)
unfolding routes_kept
routes_kept-IsUnique f [] u = tt
routes_kept-IsUnique f ((k, r) ∷ m) (h, u) =
    ground (arith, routes_kept-IsUnique f m u, has-routes_kept f k m)

pub size-routes_kept-le :
    (f : String) (m : Map InflightRoute) → Map.size (routes_kept f m) ≤ Map.size m
unfolding routes_kept
size-routes_kept-le f [] = omega arith
size-routes_kept-le f ((k, r) ∷ m) = ground (arith, size-routes_kept-le f m)

-- A route that is answered leaves the table.
pub settle-IsSettled :
    (d : Desk) (k : String) (r : InflightRoute) (x : Response)
    → IsSettled d
    → Map.get k d.routes ≡ some r
    → IsSettled (record d { routes = Map.delete k d.routes; replies = (r.ticket, x) ∷ d.replies })
unfolding answers
settle-IsSettled d k r x h e = record {
  unique = Map.delete-IsUnique k d.routes h.unique;
  exact = λ t. omega (arith, h.exact t, waiting-delete t k r d.routes h.unique e);
  bounded = omega (arith, h.bounded, Map.size-delete-le k d.routes);
}

-- A route that is replaced in place keeps its ticket.
pub mark-IsSettled :
    (d : Desk) (k : String) (q r : InflightRoute)
    → IsSettled d
    → Map.get k d.routes ≡ some q
    → r.ticket ≡ q.ticket
    → IsSettled (record d { routes = Map.set k r d.routes })
mark-IsSettled d k q r h e same = record {
  unique = Map.set-IsUnique k r d.routes h.unique;
  exact = λ t. omega (arith, h.exact t, waiting-set_old t k q r d.routes e same);
  bounded = rw (Map.size-set_old k q r d.routes e) h.bounded;
}

-- A new route takes the next ticket.
pub enroll-IsSettled :
    (d : Desk) (k : String) (r : InflightRoute)
    → IsSettled d
    → Map.has k d.routes ≡ false
    → r.ticket ≡ d.tickets
    → Map.size d.routes < max_inflight_routes
    → IsSettled (record d { routes = Map.set k r d.routes; tickets = d.tickets + 1 })
enroll-IsSettled d k r h new same room = record {
  unique = Map.set-IsUnique k r d.routes h.unique;
  exact = λ t. ground (arith, h.exact t, waiting-set_new t k r d.routes new);
  bounded = omega (arith, room, Map.size-set-le k r d.routes);
}

pub lose-IsSettled :
    (d : Desk) (f : String)
    → IsSettled d
    → IsSettled
        (record d { routes = routes_kept f d.routes; replies = routes_lost f d.routes d.replies })
lose-IsSettled d f h = record {
  unique = routes_kept-IsUnique f d.routes h.unique;
  exact = λ t. omega (arith, h.exact t, waiting-kept t f d.routes d.replies);
  bounded = omega (arith, h.bounded, size-routes_kept-le f d.routes);
}
