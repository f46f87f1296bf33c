-- ===== src/Handlers/Js/Page/Tokens.antt =====
-- A document as the sequence of its opening and closing tags, and where `append_first` inserts.
use mathlib.Core.Option
use mathlib.Core.Path.{subst}
use neon_oss.Base.{
  ◌≡◌, ◌⊎◌, ◌↔◌, refl, sym, ap, ◌∙◌, inl, inr, Bool, true, false, Bool-cases, Option, none, some,
  List, [], ◌∷◌, ◌++◌, append_assoc, All, All-append,
}
use neon_oss.Handlers.Js.Page.{
  Label, Node, node, Nodes, nil, child, append_children, append_first, append_within,
}

pub data Token : Type 0 where
  opening closing : Label → Token

unfoldable mutual
  pub tokens : Node → List Token
  tokens (node l ns) = opening l ∷ (tokens_in ns ++ closing l ∷ [])

  pub tokens_in : Nodes → List Token
  tokens_in nil = []
  tokens_in (child n ns) = tokens n ++ tokens_in ns

pub tokens_in-append :
    (ns kids : Nodes) → tokens_in (append_children ns kids) ≡ tokens_in ns ++ tokens_in kids
unfolding tokens append_children
tokens_in-append nil kids = refl
tokens_in-append (child n ns) kids =
    ap (λ r. tokens n ++ r) (tokens_in-append ns kids)
    ∙ sym (append_assoc (tokens n) (tokens_in ns) (tokens_in kids))

module _ (test : Label → Bool) where
  -- The token opens no node that passes the test.
  abbrev pub Misses : Token → Type 0
  Misses (opening l) = test l ≡ false
  Misses (closing l) = Unit

  -- The second sequence is the first one with `kids` before the closing tag of the first node that
  -- passes the test, behind the children `inner` that the node has.
  pub record Inserted (kids : Nodes) (before after : List Token) : Type 0 where
    pub pre : List Token
    pub label : Label
    pub inner : Nodes
    pub post : List Token
    pub passes : test label ≡ true
    pub first : All Misses pre
    pub was : before ≡ pre ++ (opening label ∷ (tokens_in inner ++ (closing label ∷ post)))
    pub now :
        after
        ≡ pre ++ (opening label ∷ ((tokens_in inner ++ tokens_in kids) ++ (closing label ∷ post)))

  module _ (kids : Nodes) where
    -- More tokens behind, and tokens without a match in front.
    Inserted-behind :
        (a b rest : List Token) → Inserted kids a b → Inserted kids (a ++ rest) (b ++ rest)
    Inserted-behind a b rest i = record {
      pre = i.pre;
      label = i.label;
      inner = i.inner;
      post = i.post ++ rest;
      passes = i.passes;
      first = i.first;
      was = ap (λ x. x ++ rest) i.was ∙ simp (append_assoc);
      now = ap (λ x. x ++ rest) i.now ∙ simp (append_assoc);
    }

    Inserted-front :
        (front a b : List Token)
        → All Misses front
        → Inserted kids a b
        → Inserted kids (front ++ a) (front ++ b)
    Inserted-front front a b m i = record {
      pre = front ++ i.pre;
      label = i.label;
      inner = i.inner;
      post = i.post;
      passes = i.passes;
      first = All-append Misses front i.pre m i.first;
      was = ap (λ x. front ++ x) i.was ∙ sym (append_assoc front i.pre _);
      now = ap (λ x. front ++ x) i.now ∙ sym (append_assoc front i.pre _);
    }

    passed :
        (l : Label) (ns : Nodes)
        → test l ≡ true
        → append_first test kids (node l ns) ≡ some (node l (append_children ns kids))
    unfolding append_first
    passed l ns h = rw (h, append_first) refl

    descended :
        (l : Label) (ns : Nodes) (o : Option Nodes)
        → test l ≡ false
        → append_within test kids ns ≡ o
        → append_first test kids (node l ns) ≡ Option.map (node l) o
    unfolding append_first
    descended l ns o h e = rw (h, e, append_first) refl

    in_first :
        (n n' : Node) (ns : Nodes)
        → append_first test kids n ≡ some n'
        → append_within test kids (child n ns) ≡ some (child n' ns)
    unfolding append_first
    in_first n n' ns h = rw (h, append_within) refl

    in_rest :
        (n : Node) (ns : Nodes) (o : Option Nodes)
        → append_first test kids n ≡ none
        → append_within test kids ns ≡ o
        → append_within test kids (child n ns) ≡ Option.map (child n) o
    unfolding append_first
    in_rest n ns o h e = rw (h, e, append_within) refl

    abbrev FirstInserted : Node → Type 0
    FirstInserted n =
        ((append_first test kids n ≡ none) × All Misses (tokens n))
        ⊎ ((n' : Node) × (append_first test kids n ≡ some n')
            × Inserted kids (tokens n) (tokens n'))

    abbrev WithinInserted : Nodes → Type 0
    WithinInserted ns =
        ((append_within test kids ns ≡ none) × All Misses (tokens_in ns))
        ⊎ ((ns' : Nodes) × (append_within test kids ns ≡ some ns')
            × Inserted kids (tokens_in ns) (tokens_in ns'))

    Inserted-here :
        (l : Label) (ns : Nodes)
        → test l ≡ true
        → Inserted kids (tokens (node l ns)) (tokens (node l (append_children ns kids)))
    unfolding tokens
    Inserted-here l ns h = record {
      pre = [];
      label = l;
      inner = ns;
      post = [];
      passes = h;
      first = tt;
      was = refl;
      now = ap (λ x. opening l ∷ (x ++ closing l ∷ [])) (tokens_in-append ns kids);
    }

    Inserted-below :
        (l : Label) (ns ns' : Nodes)
        → test l ≡ false
        → Inserted kids (tokens_in ns) (tokens_in ns')
        → Inserted kids (tokens (node l ns)) (tokens (node l ns'))
    unfolding tokens
    Inserted-below l ns ns' h i =
        Inserted-front (opening l ∷ []) (tokens_in ns ++ closing l ∷ [])
          (tokens_in ns' ++ closing l ∷ []) (h, tt)
          (Inserted-behind (tokens_in ns) (tokens_in ns') (closing l ∷ []) i)

    Misses-below :
        (l : Label) (ns : Nodes)
        → test l ≡ false
        → All Misses (tokens_in ns)
        → All Misses (tokens (node l ns))
    unfolding tokens
    Misses-below l ns h m = (h, All-append Misses (tokens_in ns) (closing l ∷ []) m (tt, tt))

    node_step : (l : Label) (ns : Nodes) → WithinInserted ns → FirstInserted (node l ns)
    node_step l ns below = elim (Bool-cases (test l)) [
      | inl passes ↦
          inr (node l (append_children ns kids), passed l ns passes, Inserted-here l ns passes)
      | inr fails ↦ elim below [
        | inl (e, m) ↦ inl (descended l ns none fails e, Misses-below l ns fails m)
        | inr (ns', e, i) ↦
            inr (node l ns', descended l ns (some ns') fails e, Inserted-below l ns ns' fails i)
      ]
    ]

    none_here : WithinInserted nil
    unfolding append_first tokens
    none_here = inl (refl, tt)

    child_step :
        (n : Node) (ns : Nodes) → FirstInserted n → WithinInserted ns → WithinInserted (child n ns)
    unfolding tokens
    child_step n ns (inr (n', e, i)) rest =
        inr
          (child n' ns, in_first n n' ns e, Inserted-behind (tokens n) (tokens n') (tokens_in ns) i)
    child_step n ns (inl (e, m)) (inl (f, k)) =
        inl (in_rest n ns none e f, All-append Misses (tokens n) (tokens_in ns) m k)
    child_step n ns (inl (e, m)) (inr (ns', f, i)) = inr (
      child n ns',
      in_rest n ns (some ns') e f,
      Inserted-front (tokens n) (tokens_in ns) (tokens_in ns') m i,
    )

    mutual
      first_inserted : (n : Node) → FirstInserted n
      first_inserted (node l ns) = node_step l ns (within_inserted ns)

      within_inserted : (ns : Nodes) → WithinInserted ns
      within_inserted nil = none_here
      within_inserted (child n ns) = child_step n ns (first_inserted n) (within_inserted ns)

    pub append_first-Inserted :
        (n n' : Node) → append_first test kids n ≡ some n' → Inserted kids (tokens n) (tokens n')
    append_first-Inserted n n' h = elim (first_inserted n) [
      | inl (e, m) ↦ absurd (cc (e, h))
      | inr (m, e, i) ↦
          let same : m ≡ n' = cc (e, h) in subst (λ x. Inserted kids (tokens n) (tokens x)) same i
    ]

    Misses-all :
        (pre : List Token) (l : Label) (post : List Token)
        → All Misses (pre ++ (opening l ∷ post))
        → test l ≡ false
    Misses-all [] l post m = m.0
    Misses-all (t ∷ pre) l post m = Misses-all pre l post m.1

    pub append_first-none : (n : Node) → (append_first test kids n ≡ none) ↔ All Misses (tokens n)
    append_first-none n = (
      λ h. elim (first_inserted n) [ inl (e, m) ↦ m | inr (m, e, i) ↦ absurd (cc (e, h)) ],
      λ h. elim (first_inserted n) [
        | inl (e, m) ↦ e
        | inr (m, e, i) ↦
            absurd (cc (Misses-all i.pre i.label _ (subst (All Misses) i.was h), i.passes))
      ],
    )
