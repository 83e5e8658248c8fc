-- ===== src/Cache/Links.antt =====
-- `detach` and `attach_head` of src/cache/mod.rs on the linked list.
use flash_store.Prelude.{
  ◌≡◌, refl, ap, ap₂, sym, ◌∙◌, List, [], ◌∷◌, ◌++◌, append-nil, Option, none, some, subst,
}
use flash_store.Cache.{
  Slot, LruNode, Nodes, LruInner, modify, set_prev, set_next, unlinked, link_back, link_forth,
  unlink, cut, detach, push_down, attach_head,
}
use flash_store.Cache.Chain.{
  first, last, IsNode, IsChain, Apart, NoDup, Disjoint, Same-IsChain, modify-Same, split-IsChain,
  join-IsChain, modify_opt, modify-at, relink_next, relink_prev, Same-trans, modify_last-Same,
  modify_first-Same, Disjoint-sym, split-NoDup,
}

-- The list of a cache: its slots in order of use.
pub record Lists (s : LruInner) (order : List Slot) : Type 0 where
  pub chain : IsChain s.nodes none order none
  pub head : s.head ≡ first order none
  pub tail : s.tail ≡ last none order
  pub nodup : NoDup order

pub last-append :
    (p : Option Slot) (xs : List Slot) (y : Slot) (ys : List Slot)
    → last p (xs ++ y ∷ ys) ≡ last (some y) ys
last-append p [] y ys = refl
last-append p (x ∷ xs) y ys = last-append (some x) xs y ys

link_back_nodes :
    (s : LruInner) (p n : Option Slot)
    → ((link_back s p n).nodes ≡ modify_opt s.nodes p (set_next n))
      × ((link_back s p n).tail ≡ s.tail)
link_back_nodes s none n = (refl, refl)
link_back_nodes s (some p) n = (refl, refl)

link_forth_nodes :
    (s : LruInner) (p n : Option Slot)
    → ((link_forth s p n).nodes ≡ modify_opt s.nodes n (set_prev p))
      × ((link_forth s p n).head ≡ s.head)
link_forth_nodes s p none = (refl, refl)
link_forth_nodes s p (some n) = (refl, refl)

link_back-some :
    (s : LruInner) (x : Slot) (xs : List Slot) (n : Option Slot)
    → (link_back s (last (some x) xs) n).head ≡ s.head
link_back-some s x [] n = refl
link_back-some s x (y ∷ xs) n = link_back-some s y xs n

link_back_head :
    (s : LruInner) (xs : List Slot) (i : Slot) (ys : List Slot)
    → s.head ≡ first (xs ++ i ∷ ys) none
    → (link_back s (last none xs) (first ys none)).head ≡ first (xs ++ ys) none
link_back_head s [] i ys h = refl
link_back_head s (x ∷ xs) i ys h = link_back-some s x xs (first ys none) ∙ h

link_forth_tail :
    (s : LruInner) (xs : List Slot) (i : Slot) (ys : List Slot)
    → s.tail ≡ last none (xs ++ i ∷ ys)
    → (link_forth s (last none xs) (first ys none)).tail ≡ last none (xs ++ ys)
link_forth_tail s xs i [] h = ap (last none) (sym (append-nil xs))
link_forth_tail s xs i (y ∷ ys) h =
    h ∙ last-append none xs i (y ∷ ys) ∙ sym (last-append none xs y ys)

-- The parts of a state that links do not touch.
abbrev pub SameRest : LruInner → LruInner → Type 0
SameRest s t =
    (t.nodes_len ≡ s.nodes_len)
    × (t.free_indices ≡ s.free_indices)
    × (t.map ≡ s.map)
    × (t.capacity ≡ s.capacity)

pub link_rest :
    (s : LruInner) (p q n m : Option Slot) → SameRest s (link_forth (link_back s p n) q m)
link_rest s none q n none = (refl, refl, refl, refl)
link_rest s none q n (some m) = (refl, refl, refl, refl)
link_rest s (some p) q n none = (refl, refl, refl, refl)
link_rest s (some p) q n (some m) = (refl, refl, refl, refl)

-- A node of the list is taken out of it.
pub detach-Lists :
    (s : LruInner) (xs : List Slot) (i : Slot) (ys : List Slot)
    → Lists s (xs ++ i ∷ ys)
    → NoDup (xs ++ ys)
    → Lists (detach s i) (xs ++ ys) × SameRest s (detach s i)
detach-Lists s xs i ys l d =
    let (cx, (node, at, prev, next), cy) = split-IsChain s.nodes none xs i ys none l.chain in
    let (dx, dy, dis, ix, iy) = split-NoDup xs i ys l.nodup in
    let p = last none xs in
    let n = first ys none in
    let a1 = modify_opt s.nodes p (set_next n) in
    let a2 = modify_opt a1 n (set_prev p) in
    let a3 = modify a2 i unlinked in
    let b = link_back s p n in
    let t = link_forth b p n in
    let bn = link_back_nodes s p n in
    let tn = link_forth_nodes b p n in
    let nodes : t.nodes ≡ a2 = tn.0 ∙ ap (λ x. modify_opt x n (set_prev p)) bn.0 in
    let chain_x : IsChain a3 none xs n =
      Same-IsChain a1 a3 none xs n
        (Same-trans a1 a2 a3 xs (modify_first-Same a1 ys xs (set_prev p) (Disjoint-sym xs ys dis))
          (modify-Same a2 i unlinked xs ix))
        (relink_next s.nodes none xs (some i) n dx cx) in
    let chain_y : IsChain a3 p ys none =
      Same-IsChain a2 a3 p ys none (modify-Same a2 i unlinked ys iy) (
        relink_prev a1 (some i) p ys none dy (
          Same-IsChain s.nodes a1 (some i) ys none (modify_last-Same s.nodes xs ys (set_next n) dis)
            cy)) in
    let whole = join-IsChain a3 none xs ys none chain_x chain_y in
    let is_cut : detach s i ≡ cut s i p n = ap (unlink s i) at ∙ ap₂ (cut s i) prev next in
    let done : Lists (cut s i p n) (xs ++ ys) × SameRest s (cut s i p n) = (
      record {
        chain =
            subst (λ (x : Nodes). IsChain (modify x i unlinked) none (xs ++ ys) none) (sym nodes)
              whole;
        head = tn.1 ∙ link_back_head s xs i ys l.head;
        tail = link_forth_tail b xs i ys (bn.1 ∙ l.tail);
        nodup = d;
      },
      link_rest s p p n n,
    ) in
    subst (λ (x : LruInner). Lists x (xs ++ ys) × SameRest s x) (sym is_cut) done

pub push_down_facts :
    (s : LruInner) (i : Slot) (h : Option Slot)
    → ((push_down s i h).nodes ≡ modify_opt s.nodes h (set_prev (some i)))
      × SameRest s (push_down s i h)
push_down_facts s i none = (refl, (refl, refl, refl, refl))
push_down_facts s i (some h) = (refl, (refl, refl, refl, refl))

push_down_tail :
    (s : LruInner) (i : Slot) (order : List Slot)
    → s.tail ≡ last none order
    → (push_down s i (first order none)).tail ≡ last (some i) order
push_down_tail s i [] h = refl
push_down_tail s i (j ∷ order) h = h

-- A node outside the list becomes its head.
pub attach_head-Lists :
    (s : LruInner) (i : Slot) (order : List Slot) (node : LruNode)
    → Lists s order
    → s.nodes i ≡ some node
    → Apart i order
    → Lists (attach_head s i) (i ∷ order) × SameRest s (attach_head s i)
unfolding attach_head
attach_head-Lists s i order node l at apart =
    let f = λ (n : LruNode). record n { prev = none; next = s.head } in
    let a1 = modify s.nodes i f in
    let h = first order none in
    let a2 = modify_opt a1 h (set_prev (some i)) in
    let t = record s { nodes = a1 } in
    let facts = push_down_facts t i s.head in
    let nodes : (push_down t i s.head).nodes ≡ a2 =
      facts.0 ∙ ap (λ x. modify_opt a1 x (set_prev (some i))) l.head in
    let alone : Disjoint order (i ∷ []) = Disjoint-sym (i ∷ []) order (apart, tt) in
    let same = modify_first-Same a1 order (i ∷ []) (set_prev (some i)) alone in
    let new : IsNode a2 i none h =
      (f node, sym same.0 ∙ modify-at s.nodes i f node at, refl, l.head) in
    let rest : IsChain a2 (some i) order none =
      relink_prev a1 none (some i) order none l.nodup
        (Same-IsChain s.nodes a1 none order none (modify-Same s.nodes i f order apart) l.chain) in
    (
      record {
        chain = subst (λ (x : Nodes). IsChain x none (i ∷ order) none) (sym nodes) (new, rest);
        head = refl;
        tail = ap (λ x. (push_down t i x).tail) l.head ∙ push_down_tail t i order l.tail;
        nodup = (apart, l.nodup);
      },
      facts.1,
    )
