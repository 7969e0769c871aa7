-- ===== src/Publish/Examples.antt =====
-- Witnesses of the publication.
use data_pipeline_async.Base.{ℕ, ◌+◌, ◌≡◌, refl, List, [], ◌∷◌, ◌++◌, map, arith}
use data_pipeline_async.Publish.{doc_scraped, new_producer, quiet}
use data_pipeline_async.Publish.Outage.{Failing, publish_all, outage_contacts}

abbrev at : ℕ → Failing
at t = record { start = t; end = t + 1; message = doc_scraped [] t }

abbrev four : List Failing
four = at 2 ∷ at 3 ∷ at 4 ∷ at 5 ∷ []

outage_contacts_example :
    let (p, results) = publish_all ((at 1 ∷ four) ++ at 9 ∷ []) (new_producer 10) in
    (results ≡ map (λ _. quiet) ((at 1 ∷ four) ++ at 9 ∷ [])) × (p.sent ≡ []) × (p.contacts ≡ 5)
outage_contacts_example = outage_contacts 10 (at 1) four (at 9 ∷ []) refl (omega arith, tt)
