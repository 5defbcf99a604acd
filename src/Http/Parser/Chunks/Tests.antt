-- ===== src/Http/Parser/Chunks/Tests.antt =====
-- The theorem on chunked bodies at two chunks, with the empty line behind them.
use my_project.Prelude.{true, ◌≡◌, refl, [], ◌∷◌, ◌++◌, codes, arith}
use my_project.Http.Parser.{HttpParser, new_parser}
use my_project.Http.Parser.Number.{strtoul}
use my_project.Http.Parser.Machine.{parse_chunked_body}
use my_project.Http.Parser.Chunks.{
  Chunk, IsChunk, chunks_text, chunks_size, chunks_data, with_body, parse_chunked_body-chunks,
}

abbrev hello : Chunk
hello = record { size_text = codes "5"; content = codes "hello" }

abbrev world : Chunk
world = record { size_text = codes "6"; content = codes " world" }

hello-IsChunk : IsChunk hello
unfolding strtoul
hello-IsChunk = record {
  size_cr = (omega arith, tt);
  says = λ rest. refl;
  nonempty = cc;
  fits = omega arith;
}

world-IsChunk : IsChunk world
unfolding strtoul
world-IsChunk = record {
  size_cr = (omega arith, tt);
  says = λ rest. refl;
  nonempty = cc;
  fits = omega arith;
}

abbrev in_chunks : HttpParser
in_chunks = record new_parser { reading_chunk_size = true }

chunks_example : parse_chunked_body (chunks_text (hello ∷ world ∷ []) (codes "\r\n")) in_chunks ≡ (
  chunks_size (hello ∷ world ∷ []),
  with_body (in_chunks.temp_body ++ chunks_data (hello ∷ world ∷ [])) in_chunks,
)
chunks_example =
    parse_chunked_body-chunks (hello ∷ world ∷ []) (codes "\r\n") in_chunks
      (hello-IsChunk, (world-IsChunk, tt)) refl
