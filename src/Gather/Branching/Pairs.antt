-- ===== src/Gather/Branching/Pairs.antt =====
-- The pairs of a path and a protocol candidate for which the tree has nodes.
use ctaps.Prelude.{
  suc, arith, Bool, true, false, Option, none, some, ◌&&◌, ltb, if◌then◌else◌, ℕ, ◌+◌, ◌≡◌, refl,
  ap, ◌∙◌, List, [], ◌∷◌, ◌++◌, map, length,
}
use ctaps.Gather.Selection.{Text, Protocol}
use ctaps.Gather.Tree.{LocalEndpoint, ProtocolCandidate, ProtocolNode, PathNode, flat}
use ctaps.Gather.Branching.{
  candidate, protocol_candidates, append_candidates, branch_by_protocol_options, branch_paths,
  branch_by_path,
}

-- What a protocol node stands for.
abbrev pub Pair : Type 0
Pair = LocalEndpoint × ProtocolCandidate

abbrev pub pair : ProtocolNode → Pair
pair q = (q.local_endpoint, q.candidate)

map-append {ℓ κ} :
    {A : Type ℓ} {B : Type κ} (f : A → B) (xs ys : List A) → map f (xs ++ ys) ≡ map f xs ++ map f ys
map-append f [] ys = refl
map-append f (x ∷ xs) ys = ap (λ zs. f x ∷ zs) (map-append f xs ys)

append_candidates-pair :
    (l : LocalEndpoint) (cs : List ProtocolCandidate) (n : ℕ)
    → map pair (append_candidates l cs n) ≡ map (λ c. (l, c)) cs
unfolding append_candidates
append_candidates-pair l [] n = refl
append_candidates-pair l (c ∷ cs) n = ap (λ ps. (l, c) ∷ ps) (append_candidates-pair l cs (n + 1))

-- The ALPN strings of a protocol's candidates: all there are, for a protocol that supports them.
abbrev pub choices : Bool → List Text → List (Option Text)
choices false alpns = none ∷ []
choices true [] = none ∷ []
choices true (a ∷ rest) = map some (a ∷ rest)

-- Each endpoint with each protocol and each of its ALPN strings.
abbrev pub pairs : List Protocol → List Text → List LocalEndpoint → List Pair
pairs ps alpns ls =
    flat
      (λ l.
        flat
          (λ (p : Protocol).
            map (λ a. (l, record { protocol = p; alpn = a })) (choices p.supports_alpn alpns))
          ps)
      ls

map-strings :
    (l : LocalEndpoint) (p : Protocol) (xs : List Text)
    → map {B = Pair} (λ c. (l, c)) (map (λ a. candidate p (some a)) xs)
      ≡ map (λ a. (l, record { protocol = p; alpn = a })) (map some xs)
map-strings l p [] = refl
map-strings l p (x ∷ xs) = ap (λ ps. (l, candidate p (some x)) ∷ ps) (map-strings l p xs)

map-protocol_candidates :
    (l : LocalEndpoint) (alpns : List Text) (p : Protocol)
    → map {B = Pair} (λ c. (l, c)) (protocol_candidates alpns p)
      ≡ map (λ a. (l, record { protocol = p; alpn = a })) (choices p.supports_alpn alpns)
unfolding protocol_candidates
map-protocol_candidates l alpns p = by_support p.supports_alpn alpns
  where
    positive : (n : ℕ) → ltb 0 (suc n) ≡ true
    positive n = ground arith

    by_support :
        (b : Bool) (strings : List Text)
        → map {B = Pair}
            (λ c. (l, c))
            (if b && ltb 0 (length strings)
              then map (λ a. candidate p (some a)) strings
              else candidate p none ∷ [])
          ≡ map (λ a. (l, record { protocol = p; alpn = a })) (choices b strings)
    by_support false strings = refl
    by_support true [] = refl
    by_support true (a ∷ rest) = rw (positive (length rest)) (map-strings l p (a ∷ rest))

map-flat :
    (l : LocalEndpoint) (alpns : List Text) (ps : List Protocol)
    → map {B = Pair} (λ c. (l, c)) (flat (protocol_candidates alpns) ps)
      ≡ flat
          (λ (p : Protocol).
            map (λ a. (l, record { protocol = p; alpn = a })) (choices p.supports_alpn alpns))
          ps
map-flat l alpns [] = refl
map-flat l alpns (p ∷ ps) =
    map-append (λ c. (l, c)) (protocol_candidates alpns p) (flat (protocol_candidates alpns) ps)
    ∙ rw (map-protocol_candidates l alpns p, map-flat l alpns ps)

-- The branching by path and by protocol makes a protocol node for each of the resolved local
-- endpoints with each protocol, in that order, and no other: a protocol that supports ALPN has a
-- node for each ALPN string, if there are any, and any other protocol has one without.
pub branch_paths-pairs :
    (ps : List Protocol) (alpns : List Text) (ls : List LocalEndpoint) (m n : ℕ)
    → map pair (flat (λ p. p.protocols) (branch_paths ps alpns (branch_by_path ls m) n).0)
      ≡ pairs ps alpns ls
unfolding branch_paths branch_by_path branch_by_protocol_options
branch_paths-pairs ps alpns [] m n = refl
branch_paths-pairs ps alpns (l ∷ ls) m n =
    let cs = flat (protocol_candidates alpns) ps in
    let rest =
      flat (λ (p : PathNode). p.protocols)
        (branch_paths ps alpns (branch_by_path ls (m + 1)) (n + length cs)).0 in
    map-append pair (append_candidates l cs n) rest
    ∙ ap (λ xs. xs ++ map pair rest) (append_candidates-pair l cs n ∙ map-flat l alpns ps)
    ∙ ap
        (λ xs.
          flat
            (λ (p : Protocol).
              map (λ a. (l, record { protocol = p; alpn = a })) (choices p.supports_alpn alpns))
            ps
          ++ xs)
        (branch_paths-pairs ps alpns ls (m + 1) (n + length cs))
