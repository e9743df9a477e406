-- ===== src/Knowledge/Runs.antt =====
-- Every sequence of `ingest` and `reindex`.
use mini_company.Prelude.{ℕ, ◌≤◌, ◌≡◌, inl, inr, refl, Option, subst, Option-cases, arith}
use mini_company.Prelude.Text.{Text, get}
use mini_company.Prelude.Dict.{lookup}
use mini_company.Knowledge.Repository.{get_source}
use mini_company.Knowledge.Schemas.{document_response}
use mini_company.Knowledge.Library.{Library}
use mini_company.Knowledge.Service.{index, ingest, reindex, Material}
use mini_company.Knowledge.Indexing.{index-IsRun}
use mini_company.Knowledge.Filing.{IsFiled, index-IsFiled}
use mini_company.Knowledge.Ingestion.{ingest-IsFiled}
use mini_company.Company.World.{Runtime, World, Result-cases}
use mini_company.Company.Office.{opening}

module _ (runtime : Runtime) where
  reindex-IsFiled :
      (library : Library) (doc_id : ℕ) (strategy : Option Text) (w : World)
      → IsFiled runtime w
      → IsFiled runtime (reindex runtime library doc_id strategy w).1
  unfolding reindex get_source document_response
  reindex-IsFiled library doc_id strategy w sound =
      elim (Option-cases (lookup doc_id w.documents)) [
        | inl absent ↦ subst (IsFiled runtime) (ground (arith, absent)) sound
        | inr (document, found) ↦
            let run = index runtime library document strategy w in
            let after =
              index-IsFiled runtime library document strategy w sound doc_id found run
                (index-IsRun runtime library document strategy w) in
            elim (Result-cases run.0) [
              | inr (e, failed) ↦ subst (IsFiled runtime) (ground (arith, found, failed)) after
              | inl (d, made) ↦ elim (Option-cases d.id) [
                | inl unsaved ↦ subst (IsFiled runtime) (ground (arith, found, made, unsaved)) after
                | inr (i, named) ↦
                    subst (IsFiled runtime) (ground (arith, found, made, named)) after
              ]
            ]
      ]

  -- Documents come in and are indexed again, each time with settings and embeddings of their own,
  -- and in between other services write other stores and draw ids.
  pub data Step (w : World) : World → Type 0 where
    ingests :
        (library : Library) (material : Material) → Step w (ingest runtime library material w).1
    reindexes :
        (library : Library) (doc_id : ℕ) (strategy : Option Text)
        → Step w (reindex runtime library doc_id strategy w).1
    others :
        (v : World) → v.documents ≡ w.documents → v.rows ≡ w.rows → w.drawn ≤ v.drawn → Step w v

  pub data Reach : World → Type 0 where
    opens : Reach opening
    next : {v w : World} → Reach v → Step v w → Reach w

  others-IsFiled :
      (v w : World)
      → v.documents ≡ w.documents
      → v.rows ≡ w.rows
      → w.drawn ≤ v.drawn
      → IsFiled runtime w
      → IsFiled runtime v
  others-IsFiled v w same rows more sound = record {
    keyed = rw same sound.keyed;
    named = λ i d h. sound.named i d (ground (arith, same));
    free = λ k h. ground (arith, same, sound.free k (omega arith));
    distinct =
        λ i j d e hi hj h. sound.distinct i j d e (ground (arith, same)) (ground (arith, same)) h;
    counted = λ i d h. rw rows (sound.counted i d (ground (arith, same)));
    numbered = λ i. rw rows (sound.numbered i);
    unfiled = λ i h. rw rows (sound.unfiled i (ground (arith, same)));
  }

  Step-IsFiled : (w v : World) → Step w v → IsFiled runtime w → IsFiled runtime v
  Step-IsFiled w _ (ingests library material) sound =
      ingest-IsFiled runtime library material w sound
  Step-IsFiled w _ (reindexes library doc_id strategy) sound =
      reindex-IsFiled library doc_id strategy w sound
  Step-IsFiled w v (others _ same rows more) sound = others-IsFiled v w same rows more sound

  -- Whatever is ingested and indexed again in any order, with whatever settings and embeddings, and
  -- wherever a call raises: no two documents have the same hash, every document is stored under
  -- its id and has as many rows in the vector store as its chunk_count says, which are its chunks
  -- from 0 on without a gap, and there are no rows of anything else that has an id.
  pub Reach-IsFiled : (w : World) → Reach w → IsFiled runtime w
  unfolding lookup get
  Reach-IsFiled _ opens = record {
    keyed = tt;
    named = λ i d h. ground arith;
    free = λ k h. refl;
    distinct = λ i j d e hi hj h. ground arith;
    counted = λ i d h. ground arith;
    numbered = λ i. tt;
    unfiled = λ i h. refl;
  }
  Reach-IsFiled _ (next {v} {w} r s) = Step-IsFiled v w s (Reach-IsFiled v r)
