-- ===== src/Context/Planner/Turn.antt =====
-- context.rs: what the compaction of tool results keeps of the current turn.
use git_client.Prelude.{
  ◌<◌, ◌≡◌, ◌⊎◌, refl, sym, ap, subst, ◌∙◌, inl, inr, Bool, true, List, [], ◌∷◌, ◌++◌, Option, none,
  some, Text, codes, len, starts_with, starts_with-append, ltb, Bool-cases, ltb→lt, arith,
}
use git_client.ToolRuntime.RunLimits.{decimal}
use git_client.Goal.Model.{
  TranscriptItem, system, user_text, assistant_text, assistant_tool_calls, tool_result,
}
use git_client.Context.{compacted_prefix, compacted_marker, compact_oldest_tool_result}

module _ {V : Type 0} where
  -- A tool result whose content a shorter marker replaces.
  pub record IsCompacted (x y : TranscriptItem V) : Type 0 where
    pub name : Text
    pub call_id : Text
    pub content : Text
    pub marker : Text
    pub counts : Bool
    pub before : x ≡ tool_result name call_id content counts
    pub after : y ≡ tool_result name call_id marker counts
    pub marked : starts_with compacted_prefix marker ≡ true
    pub shorter : len marker < len content

  -- The same items, but for the contents of tool results.
  unfoldable pub Keeps : List (TranscriptItem V) → List (TranscriptItem V) → Type 0
  Keeps [] [] = Unit
  Keeps (x ∷ xs) (y ∷ ys) = ((y ≡ x) ⊎ IsCompacted x y) × Keeps xs ys
  Keeps [] (y ∷ ys) = ⊥
  Keeps (x ∷ xs) [] = ⊥

  pub Keeps_refl : (xs : List (TranscriptItem V)) → Keeps xs xs
  unfolding Keeps
  Keeps_refl [] = tt
  Keeps_refl (x ∷ xs) = (inl refl, Keeps_refl xs)

  abbrev the_result : Text → Text → Text → Bool → TranscriptItem V
  the_result n i c b = tool_result n i c b

  tool_result-inj :
      {n n' i i' c c' : Text} {b b' : Bool}
      → the_result n i c b ≡ the_result n' i' c' b'
      → (n ≡ n') × (i ≡ i') × (c ≡ c') × (b ≡ b')
  tool_result-inj h = (cc, cc, cc, cc)

  one_trans :
      (x y z : TranscriptItem V)
      → (y ≡ x) ⊎ IsCompacted x y
      → (z ≡ y) ⊎ IsCompacted y z
      → (z ≡ x) ⊎ IsCompacted x z
  one_trans x y z (inl e) (inl f) = inl (f ∙ e)
  one_trans x y z (inl e) (inr c) = inr (subst (λ x. IsCompacted x z) e c)
  one_trans x y z (inr c) (inl f) = inr (subst (IsCompacted x) (sym f) c)
  one_trans x y z (inr c) (inr d) =
      let (n, i, k, b) = tool_result-inj (sym c.after ∙ d.before) in
      inr (record {
        name = c.name;
        call_id = c.call_id;
        content = c.content;
        marker = d.marker;
        counts = c.counts;
        before = c.before;
        after = rw (n, i, b) d.after;
        marked = d.marked;
        shorter = omega (arith, c.shorter, d.shorter, ap len k);
      })

  pub Keeps_trans : (xs ys zs : List (TranscriptItem V)) → Keeps xs ys → Keeps ys zs → Keeps xs zs
  unfolding Keeps
  Keeps_trans [] [] [] h k = tt
  Keeps_trans (x ∷ xs) (y ∷ ys) (z ∷ zs) h k =
      (one_trans x y z h.0 k.0, Keeps_trans xs ys zs h.1 k.1)
  Keeps_trans [] [] (z ∷ zs) h k = absurd k
  Keeps_trans [] (y ∷ ys) zs h k = absurd h
  Keeps_trans (x ∷ xs) [] zs h k = absurd h
  Keeps_trans (x ∷ xs) (y ∷ ys) [] h k = absurd k

  behind :
      (item : TranscriptItem V) (items items' : List (TranscriptItem V))
      (o : Option (List (TranscriptItem V)))
      → ((xs : List (TranscriptItem V)) → o ≡ some xs → Keeps items xs)
      → (elim o as (λ _. Option (List (TranscriptItem V))) [
        | none ↦ none
        | some rest ↦ some (item ∷ rest)
      ])
        ≡ some items'
      → Keeps (item ∷ items) items'
  unfolding Keeps
  behind item items items' none k h = absurd (cc)
  behind item items items' (some xs) k h =
      subst (Keeps (item ∷ items)) (some_inj h) (inl refl, k xs refl)
    where
      some_inj : some (item ∷ xs) ≡ some items' → item ∷ xs ≡ items'
      some_inj e = cc

  pub compact_oldest-Keeps :
      (items items' : List (TranscriptItem V))
      → compact_oldest_tool_result items ≡ some items'
      → Keeps items items'
  unfolding compact_oldest_tool_result compacted_marker Keeps
  compact_oldest-Keeps [] items' h = absurd (cc)
  compact_oldest-Keeps (tool_result name call_id content counts ∷ items) items' h =
      elim (Bool-cases (starts_with compacted_prefix content)) [
        | inl p ↦ later (compact_oldest-Keeps items) (cc)
        | inr p ↦ elim (Bool-cases (ltb (len (compacted_marker content)) (len content))) [
          | inl s ↦
              subst (Keeps (tool_result name call_id content counts ∷ items)) (made (cc)) (marked s)
          | inr s ↦ later (compact_oldest-Keeps items) (cc)
        ]
      ]
    where
      later :
          ((xs : List (TranscriptItem V))
            → compact_oldest_tool_result items ≡ some xs
            → Keeps items xs)
          → (elim (compact_oldest_tool_result items) as (λ _. Option (List (TranscriptItem V))) [
            | none ↦ none
            | some rest ↦ some (tool_result name call_id content counts ∷ rest)
          ])
            ≡ some items'
          → Keeps (tool_result name call_id content counts ∷ items) items'
      later ih e =
          behind (tool_result name call_id content counts) items items'
            (compact_oldest_tool_result items) ih e

      made :
          some (tool_result name call_id (compacted_marker content) counts ∷ items) ≡ some items'
          → tool_result name call_id (compacted_marker content) counts ∷ items ≡ items'
      made e = cc

      marked :
          ltb (len (compacted_marker content)) (len content) ≡ true
          → Keeps
              (tool_result name call_id content counts ∷ items)
              (tool_result name call_id (compacted_marker content) counts ∷ items)
      marked s = (
        inr (record {
          name = name;
          call_id = call_id;
          content = content;
          marker = compacted_marker content;
          counts = counts;
          before = refl;
          after = refl;
          marked = starts_with-append compacted_prefix (decimal (len content) ++ codes "]");
          shorter = ltb→lt _ _ s;
        }),
        Keeps_refl items,
      )
  compact_oldest-Keeps (system text ∷ items) items' h =
      behind (system text) items items' (compact_oldest_tool_result items)
        (compact_oldest-Keeps items) h
  compact_oldest-Keeps (user_text text ∷ items) items' h =
      behind (user_text text) items items' (compact_oldest_tool_result items)
        (compact_oldest-Keeps items) h
  compact_oldest-Keeps (assistant_text text ∷ items) items' h =
      behind (assistant_text text) items items' (compact_oldest_tool_result items)
        (compact_oldest-Keeps items) h
  compact_oldest-Keeps (assistant_tool_calls calls ∷ items) items' h =
      behind (assistant_tool_calls calls) items items' (compact_oldest_tool_result items)
        (compact_oldest-Keeps items) h
