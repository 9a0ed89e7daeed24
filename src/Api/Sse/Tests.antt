-- ===== src/Api/Sse/Tests.antt =====
-- A short stream, cut in the middle of a line end.
use g_manager.Common.{
  Bool, true, false, none, some, [], ◌∷◌, ◌++◌, ◌≡◌, refl, CodePoints, codes, arith,
}
use g_manager.Api.Sse.{Message, cr, lf, cut, drain, consume_sse}
use g_manager.Api.Sse.Frames.{unframe, drain_complete}
use g_manager.Api.Sse.Normal.{join}
use g_manager.Api.Sse.Chunks.{consume_sse-join}

abbrev first : CodePoints
first = codes "event: note" ++ cr ∷ lf ∷ codes "id: 7" ++ lf ∷ codes "data:  a" ++ cr ∷ []

abbrev second : CodePoints
second = lf ∷ codes "data: b" ++ lf ∷ lf ∷ codes "event: no"

abbrev always : Message → Bool
always m = true

reads_one : consume_sse (codes "note") always (first ∷ second ∷ []) ≡ record {
  messages = record { id = some (codes "7"); payload = codes "a" ++ lf ∷ codes "b" } ∷ [];
  threw = false;
}
unfolding consume_sse
reads_one = refl

consume_sse-join_example :
    consume_sse (codes "note") always (first ∷ second ∷ [])
    ≡ consume_sse (codes "note") always (join (first ∷ second ∷ []) ∷ [])
consume_sse-join_example =
    consume_sse-join (codes "note") always (first ∷ second ∷ []) (ground arith)

drain_complete_example :
    (cut (drain second).1 ≡ none) × (unframe (drain second).0 (drain second).1 ≡ second)
drain_complete_example = drain_complete second
