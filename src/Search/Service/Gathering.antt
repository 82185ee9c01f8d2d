-- ===== src/Search/Service/Gathering.antt =====
-- What each index of a strategy adds to the response (`_run_strategy_search` of
-- wks/services/search.py): its hits, or its warnings.
use wks.Common.{
  ℕ, ◌+◌, ◌<◌, ◌≤◌, String, ◌<>◌, ◌≡◌, refl, ◌⊎◌, inl, inr, Bool, true, false, Option, none, some,
  List, [], ◌∷◌, ◌++◌, string_eq, arith, if◌then◌else◌, length, ltb, Bool-cases, append_assoc,
  append-nil, subst, sym, ap, ◌∙◌,
}
use wks.Common.Dict.{lookup}
use wks.Common.Float.{Float}
use wks.Common.Text.{strip, is_empty}
use wks.Search.Hits.{Hit}
use wks.Search.Service.{SearchRequest, IndexSpec, IndexConfig, SearchResponse, Runtime, Texts}
use wks.Search.Service.Ranking.{run_semantic_search, run_lexical_search}
use wks.Search.Service.Strategy.{
  Gathered, too_many, is_skipped, semantic_request, lexical_request, gather_response, warn,
  gather_index, gather_indexes, nothing_gathered, strategy_response, run_strategy_search,
}
use wks.Search.Service.Laws.{IsSound, Fuses, total_if, combine-Combines}

module _ (F : Float) (R : Runtime F) (X : Texts F) where
  -- All hits of some lists.
  abbrev pub total_of : List (List (Hit F)) → ℕ
  total_of [] = 0
  total_of (l ∷ ls) = length l + total_of ls

  total_of-append : (xs ys : List (List (Hit F))) → total_of (xs ++ ys) ≡ total_of xs + total_of ys
  total_of-append [] ys = omega arith
  total_of-append (x ∷ xs) ys = omega (arith, total_of-append xs ys)

  -- These warnings and these lists were added to what was gathered.
  record Adds (g g' : Gathered F R X) (warnings : List String) (lists : List (List (Hit F)))
      : Type 0 where
    warned : g'.warnings ≡ g.warnings ++ warnings
    listed : g'.ranked_lists ≡ g.ranked_lists ++ lists
    counted : g'.total_chunks ≡ g.total_chunks + total_of lists

  Adds-none : (g : Gathered F R X) → Adds g g [] []
  Adds-none g = record {
    warned = sym (append-nil g.warnings);
    listed = sym (append-nil g.ranked_lists);
    counted = omega arith;
  }

  Adds-both :
      (g g' g'' : Gathered F R X) (ws ws' : List String) (ls ls' : List (List (Hit F)))
      → Adds g g' ws ls
      → Adds g' g'' ws' ls'
      → Adds g g'' (ws ++ ws') (ls ++ ls')
  Adds-both g g' g'' ws ws' ls ls' a b = record {
    warned = b.warned ∙ (ap (λ xs. xs ++ ws') a.warned ∙ append_assoc g.warnings ws ws');
    listed = b.listed ∙ (ap (λ xs. xs ++ ls') a.listed ∙ append_assoc g.ranked_lists ls ls');
    counted = omega (arith, a.counted, b.counted, total_of-append ls ls');
  }

  -- A response of an index gives its hits, if it is a success, and its errors as warnings, if not.
  abbrev Answers : SearchResponse F → List String → List (List (Hit F)) → Type 0
  Answers response warnings lists =
      ((response.success ≡ true) × (warnings ≡ []) × (lists ≡ response.hits ∷ []))
      ⊎ ((response.success ≡ false) × (warnings ≡ response.errors) × (lists ≡ []))

  module _ (cfg : IndexConfig) (request : SearchRequest) (name : String) (explicit : Bool) where
    gather_response-Adds :
        (response : SearchResponse F) (g : Gathered F R X)
        → (ws : List String) × (ls : List (List (Hit F))) × Answers response ws ls
          × Adds g (gather_response F R X response g) ws ls
    gather_response-Adds response g = elim (Bool-cases response.success) [
      | inl e ↦ (
        [],
        response.hits ∷ [],
        inl (e, refl, refl),
        record {
          warned = rw e (sym (append-nil g.warnings));
          listed = rw e refl;
          counted = rw e (omega arith);
        },
      )
      | inr e ↦ (
        response.errors,
        [],
        inr (e, refl, refl),
        record {
          warned = rw e refl;
          listed = rw e (sym (append-nil g.ranked_lists));
          counted = rw e (omega arith);
        },
      )
    ]

    -- An implicit strategy leaves out the semantic indexes with more than 100,000 embeddings, unless the
    -- query is an image.
    abbrev Skips : String → String → Type 0
    Skips index_name model =
        (explicit ≡ false)
        × (is_empty (strip request.query_image) ≡ true)
        × (100000 < R.embedding_count index_name model)

    abbrev Asks : String → String → Type 0
    Asks index_name model =
        (explicit ≡ true)
        ⊎ (is_empty (strip request.query_image) ≡ false)
        ⊎ (R.embedding_count index_name model ≤ 100000)

    -- What an index adds, by its model.
    abbrev OfModel : String → Option String → List String → List (List (Hit F)) → Type 0
    OfModel index_name none ws ls =
        ((is_empty (strip request.query) ≡ true) × (ws ≡ []) × (ls ≡ []))
        ⊎ ((is_empty (strip request.query) ≡ false)
            × Answers
                (run_lexical_search F R X
                  (lexical_request F R X cfg request name explicit index_name) index_name)
                ws ls)
    OfModel index_name (some model) ws ls =
        (Skips index_name model
          × (ws
              ≡ too_many F R X cfg request name explicit index_name
                  (R.embedding_count index_name model)
                ∷ [])
          × (ls ≡ []))
        ⊎ (Asks index_name model
            × Answers
                (run_semantic_search F R X
                  (semantic_request F R X cfg request name explicit index_name) index_name model)
                ws ls)

    -- What an index adds; one that is not configured adds a warning.
    abbrev OfIndex : String → Option IndexSpec → List String → List (List (Hit F)) → Type 0
    OfIndex index_name none ws ls =
        (ws ≡ ("Strategy index '" <> (index_name <> "' not found, skipping")) ∷ []) × (ls ≡ [])
    OfIndex index_name (some spec) ws ls = OfModel index_name spec.embedding_model ws ls

    -- The warnings and the lists are those of the indexes, one after the other.
    abbrev pub Gathers : List String → List String → List (List (Hit F)) → Type 0
    Gathers [] warnings lists = (warnings ≡ []) × (lists ≡ [])
    Gathers (index_name ∷ indexes) warnings lists =
        (ws ws' : List String) × (ls ls' : List (List (Hit F))) × (warnings ≡ ws ++ ws')
        × (lists ≡ ls ++ ls')
        × OfIndex index_name (lookup index_name cfg.indexes) ws ls
        × Gathers indexes ws' ls'

    Skips-cases :
        (index_name model : String)
        → ((is_skipped F R X cfg request name explicit index_name model ≡ true)
            × Skips index_name model)
          ⊎ ((is_skipped F R X cfg request name explicit index_name model ≡ false)
              × Asks index_name model)
    Skips-cases index_name model = elim (Bool-cases explicit) [
      | inl e ↦ inr (ground (arith, e), inl e)
      | inr e ↦ elim (Bool-cases (is_empty (strip request.query_image))) [
        | inr i ↦ inr (ground (arith, e, i), inr (inl i))
        | inl i ↦ elim (Bool-cases (ltb 100000 (R.embedding_count index_name model))) [
          | inl c ↦ inl (ground (arith, e, i, c), (e, i, ground (arith, c)))
          | inr c ↦ inr (ground (arith, e, i, c), inr (inr (ground (arith, c))))
        ]
      ]
    ]

    gather_index-Adds :
        (index_name : String) (spec : Option IndexSpec) (g : Gathered F R X)
        → (ws : List String) × (ls : List (List (Hit F))) × OfIndex index_name spec ws ls
          × Adds g (gather_index F R X cfg request name explicit index_name spec g) ws ls
    unfolding gather_index
    gather_index-Adds index_name none g = (
      _,
      [],
      (refl, refl),
      record { warned = refl; listed = sym (append-nil g.ranked_lists); counted = omega arith },
    )
    gather_index-Adds index_name (some spec) g = by_model spec.embedding_model
      where
        by_query :
            (b : Bool)
            → is_empty (strip request.query) ≡ b
            → (ws : List String) × (ls : List (List (Hit F))) × OfModel index_name none ws ls
              × Adds g
                  (if b
                    then g
                    else gather_response F R X
                        (run_lexical_search F R X
                          (lexical_request F R X cfg request name explicit index_name)
                          index_name)
                        g)
                  ws
                  ls
        by_query true e = ([], [], inl (e, refl, refl), Adds-none g)
        by_query false e =
            let (ws, ls, a, adds) =
              gather_response-Adds
                (run_lexical_search F R X
                  (lexical_request F R X cfg request name explicit index_name) index_name)
                g in
            (ws, ls, inr (e, a), adds)

        by_skip :
            (model : String)
            → (ws : List String) × (ls : List (List (Hit F))) × OfModel index_name
                (some model)
                ws
                ls
              × Adds g
                  (if is_skipped F R X cfg request name explicit index_name model
                    then warn F R X
                        (too_many F R X cfg request name explicit index_name
                            (R.embedding_count index_name model)
                          ∷ [])
                        g
                    else gather_response F R X
                        (run_semantic_search F R X
                          (semantic_request F R X cfg request name explicit index_name)
                          index_name
                          model)
                        g)
                  ws
                  ls
        by_skip model = elim (Skips-cases index_name model) [
          | inl (e, s) ↦ (
            _,
            [],
            inl (s, refl, refl),
            rw e (record {
              warned = refl;
              listed = sym (append-nil g.ranked_lists);
              counted = omega arith;
            }),
          )
          | inr (e, s) ↦
              let (ws, ls, a, adds) =
                gather_response-Adds
                  (run_semantic_search F R X
                    (semantic_request F R X cfg request name explicit index_name) index_name model)
                  g in
              (ws, ls, inr (s, a), rw e adds)
        ]

        by_model :
            (found : Option String)
            → (ws : List String) × (ls : List (List (Hit F))) × OfModel index_name found ws ls
              × Adds g
                  (elim found [
                    | some model ↦
                        if is_skipped F R X cfg request name explicit index_name model
                        then warn F R X
                            (too_many F R X cfg request name explicit index_name
                                (R.embedding_count index_name model)
                              ∷ [])
                            g
                        else gather_response F R X
                            (run_semantic_search F R X
                              (semantic_request F R X cfg request name explicit index_name)
                              index_name
                              model)
                            g
                    | none ↦
                        if is_empty (strip request.query)
                        then g
                        else gather_response F R X
                            (run_lexical_search F R X
                              (lexical_request F R X cfg request name explicit index_name)
                              index_name)
                            g
                  ])
                  ws
                  ls
        by_model none = by_query (is_empty (strip request.query)) refl
        by_model (some model) = by_skip model

    gather_indexes-Adds :
        (indexes : List String) (g : Gathered F R X)
        → (ws : List String) × (ls : List (List (Hit F))) × Gathers indexes ws ls
          × Adds g (gather_indexes F R X cfg request name explicit indexes g) ws ls
    unfolding gather_indexes
    gather_indexes-Adds [] g = ([], [], (refl, refl), Adds-none g)
    gather_indexes-Adds (index_name ∷ indexes) g =
        let g' =
          gather_index F R X cfg request name explicit index_name (lookup index_name cfg.indexes)
            g in
        let (ws, ls, one, adds) = gather_index-Adds index_name (lookup index_name cfg.indexes) g in
        let (ws', ls', rest, adds') = gather_indexes-Adds indexes g' in
        (
          ws ++ ws',
          ls ++ ls',
          (ws, ws', ls, ls', refl, refl, one, rest),
          Adds-both g g' (gather_indexes F R X cfg request name explicit indexes g') ws ws' ls ls'
              adds adds',
        )

  module _ (k : ℕ) (at_least_one : 0 < k) (cfg : IndexConfig) (request : SearchRequest)
      (same : request.k ≡ k) (name : String) (explicit : Bool) where
    -- The response of a strategy over some indexes.
    pub record Succeeds (indexes : List String) (result : Option (SearchResponse F)) : Type 0 where
      pub response : SearchResponse F
      pub returned : result ≡ some response
      pub sound : IsSound F R X k at_least_one response
      pub succeeds : response.success ≡ true
      pub named : response.index_name ≡ name
      pub lists : List (List (Hit F))
      pub gathered : Gathers cfg request name explicit indexes response.warnings lists
      pub total : response.total_chunks ≡ total_of lists
      pub fused : Fuses F R X k at_least_one cfg request same name explicit lists response.hits

    total_if-total_of :
        (lists : List (List (Hit F)))
        → total_if F R X k at_least_one cfg request same name explicit lists (total_of lists)
          ≡ total_of lists
    total_if-total_of [] = refl
    total_if-total_of (l ∷ ls) = refl

    -- A search by a strategy that the configuration defines succeeds, whatever the runtime answers. Its
    -- warnings are those of the indexes, one after the other: a message for an index that is not
    -- configured or that is skipped for its size, and the errors of an index whose search fails.
    -- Its hits are the lists of the other indexes, fused and without duplicates, and its total
    -- counts the hits of these lists.
    pub run_strategy_search-Succeeds :
        (indexes : List String)
        → lookup name cfg.strategies ≡ some indexes
        → Succeeds indexes (run_strategy_search F R X cfg request name explicit)
    unfolding run_strategy_search
    run_strategy_search-Succeeds indexes e =
        let start = nothing_gathered F R X in
        let g = gather_indexes F R X cfg request name explicit indexes start in
        let (ws, ls, all, adds) = gather_indexes-Adds cfg request name explicit indexes start in
        let count : g.total_chunks ≡ total_of ls = omega (arith, adds.counted) in
        let c = combine-Combines F R X k at_least_one cfg request same name explicit g in
        record {
          response = c.response;
          returned = ap (strategy_response F R X cfg request name explicit) e ∙ c.returned;
          sound = c.sound;
          succeeds = c.succeeds;
          named = c.named;
          lists = ls;
          gathered =
              subst (λ w. Gathers cfg request name explicit indexes w ls)
                (sym (c.warned ∙ adds.warned)) all;
          total =
              c.total
              ∙ (ap
                    (λ t.
                      total_if F R X k at_least_one cfg request same name explicit g.ranked_lists t)
                    count
                  ∙ (ap
                        (λ l.
                          total_if F R X k at_least_one cfg request same name explicit l
                            (total_of ls))
                        adds.listed
                      ∙ total_if-total_of ls));
          fused =
              subst
                (λ l. Fuses F R X k at_least_one cfg request same name explicit l c.response.hits)
                adds.listed c.fused;
        }
