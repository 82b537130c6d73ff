-- ===== src/Store/Edges.antt =====
-- store/edges.py: the graph of triples, without the collecting account.
use paperboy.Base.{
  ℕ, ◌≡◌, ◌≢◌, ◌≤◌, ◌+◌, refl, Bool, true, false, ◌&&◌, ◌||◌, Option, some, List, [], ◌∷◌, ◌++◌,
  arith, if◌then◌else◌, Bool-cases, inl, inr, All, All-append,
}
use paperboy.Base.Text.{Text, text_eq, text_eq_refl, text_eq_iff}
use paperboy.Store.Json.{Json}
use paperboy.Store.Peers.{is_self}

-- A row of `edges`.
pub record Edge : Type 0 where
  pub subject : Text
  pub predicate : Text
  pub object : Text
  pub observed_at : ℕ
  pub tier : Text
  pub source_raw_id : Option ℕ
  pub evidence : Option Json

-- The edges after the call, and whether it wrote one.
unfoldable pub add_edge : Option Text → List Edge → Edge → List Edge × Bool
add_edge self edges e =
    if is_self self e.subject || is_self self e.object
    then (edges, false)
    else (edges ++ (e ∷ []), true)

abbrev is_triple : Text → Text → Text → Edge → Bool
is_triple s p o e = text_eq e.subject s && text_eq e.predicate p && text_eq e.object o

unfoldable pub edge_exists : List Edge → Text → Text → Text → Bool
edge_exists [] s p o = false
edge_exists (e ∷ edges) s p o = is_triple s p o e || edge_exists edges s p o

unfoldable pub add_edge_once : Option Text → List Edge → Edge → List Edge × Bool
add_edge_once self edges e =
    if edge_exists edges e.subject e.predicate e.object
    then (edges, false)
    else add_edge self edges e

-- How many rows hold a triple.
abbrev pub copies : Text → Text → Text → List Edge → ℕ
copies s p o [] = 0
copies s p o (e ∷ edges) = (if is_triple s p o e then 1 else 0) + copies s p o edges

copies-append :
    (s p o : Text) (edges : List Edge) (e : Edge)
    → copies s p o (edges ++ (e ∷ [])) ≡ copies s p o edges + (if is_triple s p o e then 1 else 0)
copies-append s p o [] e = omega arith
copies-append s p o (x ∷ edges) e = omega (arith, copies-append s p o edges e)

copies-absent :
    (s p o : Text) (edges : List Edge) → edge_exists edges s p o ≡ false → copies s p o edges ≡ 0
unfolding edge_exists
copies-absent s p o [] h = refl
copies-absent s p o (x ∷ edges) h = ground (arith, copies-absent s p o edges)

copies-new :
    (s p o : Text) (edges : List Edge) (e : Edge)
    → edge_exists edges e.subject e.predicate e.object ≡ false
    → is_triple s p o e ≡ true
    → copies s p o edges ≡ 0
copies-new s p o edges e new same = copies-absent s p o edges (
    ground (
      arith,
      new,
      same,
      text_eq_iff e.subject s,
      text_eq_iff e.predicate p,
      text_eq_iff e.object o,
    ))

exists-append :
    (edges : List Edge) (e : Edge)
    → edge_exists (edges ++ (e ∷ [])) e.subject e.predicate e.object ≡ true
unfolding edge_exists
exists-append [] e =
    ground (arith, text_eq_refl e.subject, text_eq_refl e.predicate, text_eq_refl e.object)
exists-append (x ∷ edges) e = ground (arith, exists-append edges e)

-- The collecting account stands in no edge.
abbrev pub IsWithoutSelf : Text → List Edge → Type 0
IsWithoutSelf self = All (λ e. (e.subject ≢ self) × (e.object ≢ self))

-- If the collecting account stands in no edge, it stands in none after either call, whatever edge
-- is added.
pub add_edge_once-IsWithoutSelf :
    (self : Text) (edges : List Edge) (e : Edge)
    → IsWithoutSelf self edges
    → IsWithoutSelf self (add_edge (some self) edges e).0
      × IsWithoutSelf self (add_edge_once (some self) edges e).0
unfolding add_edge add_edge_once
add_edge_once-IsWithoutSelf self edges e h =
    elim (Bool-cases (text_eq e.subject self || text_eq e.object self)) [
      | inl y ↦ elim (Bool-cases (edge_exists edges e.subject e.predicate e.object)) [
        | inl there ↦ rw (y, there) (h, h)
        | inr new ↦ rw (y, new) (h, h)
      ]
      | inr n ↦ elim (Bool-cases (edge_exists edges e.subject e.predicate e.object)) [
        | inl there ↦ rw (n, there) (kept n, h)
        | inr new ↦ rw (n, new) (kept n, kept n)
      ]
    ]
  where
    kept :
        (text_eq e.subject self || text_eq e.object self) ≡ false
        → IsWithoutSelf self (edges ++ (e ∷ []))
    kept n =
        All-append (λ x. (x.subject ≢ self) × (x.object ≢ self)) edges (e ∷ []) h
          ((not_subject n, not_object n), tt)
      where
        not_subject : (text_eq e.subject self || text_eq e.object self) ≡ false → e.subject ≢ self
        not_subject n q = ground (arith, n, q, text_eq_iff e.subject self)

        not_object : (text_eq e.subject self || text_eq e.object self) ≡ false → e.object ≢ self
        not_object n q = ground (arith, n, q, text_eq_iff e.object self)

-- If a triple has at most one copy, it has at most one after `add_edge_once` of any edge.
pub add_edge_once-copies :
    (self : Option Text) (edges : List Edge) (e : Edge) (s p o : Text)
    → copies s p o edges ≤ 1
    → copies s p o (add_edge_once self edges e).0 ≤ 1
unfolding add_edge add_edge_once
add_edge_once-copies self edges e s p o h =
    ground (arith, h, copies-append s p o edges e, copies-new s p o edges e)

-- A second `add_edge_once` of a triple, with whatever provenance, changes nothing.
add_edge_once-twice :
    (self : Option Text) (edges : List Edge) (e f : Edge)
    → e.subject ≡ f.subject
    → e.predicate ≡ f.predicate
    → e.object ≡ f.object
    → add_edge_once self (add_edge_once self edges e).0 f ≡ ((add_edge_once self edges e).0, false)
unfolding add_edge add_edge_once
add_edge_once-twice self edges e f hs hp ho = ground (arith, hs, hp, ho, exists-append edges e)
