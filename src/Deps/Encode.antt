-- ===== src/Deps/Encode.antt =====
-- internal/graph/encode.go, and cloneGraph and GraphsEqual of internal/lockfile/diff.go.
pub mod Codes
use m.Base.{Bool, Option, none, some, Str, bytes, str_eq}
use m.Apperr.{Code, Error, Result, ok, err, ◌>>=◌}
use m.Deps.{Graph}
use m.Deps.Validate.{Problem, validate, problem_error}

-- What encoding/json writes of a graph and reads of a text, or no result where it reports an error.
pub record Codec : Type 0 where
  pub marshal : Graph → Option Str
  pub unmarshal : Str → Option Graph

unfoldable pub wrapped : Str → Error
wrapped op = record { code = Code.lockfile; op = op; subject = bytes "graph" }

-- The buffer, once the graph is valid.
unfoldable pub encoded_text : Option Problem → Option Str → Result Str
unfolding problem_error wrapped
encoded_text (some p) text = err (problem_error p)
encoded_text none (some s) = ok s
encoded_text none none = err (wrapped (bytes "graph.encode"))

-- `EncodeJSON`: the graph that it leaves behind the pointer, and the text.
unfoldable pub encode_json : Codec → Graph → Graph × Result Str
unfolding encoded_text
encode_json codec g = let (g', p) = validate g in (g', encoded_text p (codec.marshal g'))

unfoldable pub accepted : Graph × Option Problem → Result Graph
unfolding problem_error
accepted (g, none) = ok g
accepted (g, some p) = err (problem_error p)

unfoldable pub decoded_graph : Option Graph → Result Graph
unfolding accepted wrapped
decoded_graph none = err (wrapped (bytes "graph.decode"))
decoded_graph (some g) = accepted (validate g)

-- `DecodeJSON`
unfoldable pub decode_json : Codec → Str → Result Graph
unfolding decoded_graph
decode_json codec text = decoded_graph (codec.unmarshal text)

-- `cloneGraph`; what it does to its argument is what `encode_json` leaves of it.
unfoldable pub clone_graph : Codec → Graph → Result Graph
unfolding encode_json decode_json
clone_graph codec g = (encode_json codec g).1 >>= decode_json codec

-- `GraphsEqual`
unfoldable pub graphs_equal : Codec → Graph → Graph → Result Bool
graphs_equal codec a b = clone_graph codec a >>= λ ac. clone_graph codec b >>= λ bc.
    (encode_json codec ac).1 >>= λ aj. (encode_json codec bc).1 >>= λ bj. ok (str_eq aj bj)
