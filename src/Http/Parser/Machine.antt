-- ===== src/Http/Parser/Machine.antt =====
-- The chunked-body handler and the main loop `HttpParser::parse` over a buffer.
-- The size of a chunk is read from the text that is shown, at whose end strtoul is taken to stop.
use my_project.Prelude.{
  ℕ, zero, suc, ◌+◌, ◌-◌, ◌%◌, ◌^◌, min, ltb, ◌==◌, if◌then◌else◌, Bool, true, false, ◌||◌, none,
  some, [], ◌∷◌, ◌++◌, Bytes, length, take, drop,
}
use my_project.Io.Buffer.{Buffer, peek, retrieve}
use my_project.Http.Parser.{
  State, start, request_line, headers, body, chunked_body, done, error, HttpParser, find_crlf,
  parse_request_line, parse_headers, parse_body,
}
use my_project.Http.Parser.Number.{strtoul}

-- A chunk-size line was read: the last chunk ends the body.
unfoldable pub chunk_sized : ℕ → HttpParser → HttpParser
chunk_sized size p =
    if size == 0
    then record p {
      chunk_size = 0;
      state = done;
      request = record p.request { body = p.temp_body };
    }
    else record p { chunk_size = size; reading_chunk_size = false }

-- The data of a whole chunk with its "\r\n" was read.
unfoldable pub chunk_whole : Bytes → HttpParser → HttpParser
chunk_whole current p = record p {
  temp_body = p.temp_body ++ take p.chunk_size current;
  reading_chunk_size = true;
}

-- Less than the chunk and its "\r\n" is there.
unfoldable pub chunk_part : Bytes → HttpParser → HttpParser
chunk_part current p =
    let n = min (length current) p.chunk_size in
    record p { temp_body = p.temp_body ++ take n current; chunk_size = p.chunk_size - n }

-- `std::string::max_size()`: `append` of more bytes throws std::length_error.
abbrev pub string_max : ℕ
string_max = 2 ^ 63 - 1

-- The loop over the bytes from `current` on. `chunk_size_ + 2` is computed in size_t, and may wrap
-- around; then `append` is asked for more bytes than a string can hold.
unfoldable pub chunk_loop : ℕ → Bytes → ℕ → HttpParser → ℕ × HttpParser
chunk_loop zero current consumed_total p = (consumed_total, p)
chunk_loop (suc fuel) [] consumed_total p = (consumed_total, p)
chunk_loop (suc fuel) (c ∷ s) consumed_total p =
    let current = c ∷ s in
    let after_size : ℕ × HttpParser = elim (find_crlf current) [
      | none ↦ (consumed_total, p)
      | some n ↦
          let p' = chunk_sized (strtoul 16 current) p in
          let on = chunk_loop fuel (drop (n + 2) current) (consumed_total + (n + 2)) p' in
          if strtoul 16 current == 0 then (consumed_total + (n + 2), p') else on
    ] in
    let data_needed = (p.chunk_size + 2) % 2 ^ 64 in
    let n = min (length current) p.chunk_size in
    let after_data =
      chunk_loop fuel (drop (p.chunk_size + 2) current) (consumed_total + (p.chunk_size + 2))
        (chunk_whole current p) in
    if p.reading_chunk_size
    then after_size
    else if ltb (length current) data_needed
    then (consumed_total + n, chunk_part current p)
    else if ltb string_max p.chunk_size
    then (consumed_total, record p { thrown = true })
    else after_data

unfoldable pub parse_chunked_body : Bytes → HttpParser → ℕ × HttpParser
parse_chunked_body text p = chunk_loop (length text + 1) text 0 p

-- The switch of `parse`; in the last two states the loop has returned.
unfoldable pub dispatch : State → Bytes → HttpParser → ℕ × HttpParser
dispatch start text p = parse_request_line text p
dispatch request_line text p = parse_request_line text p
dispatch headers text p = parse_headers text p
dispatch body text p = parse_body text p
dispatch chunked_body text p = parse_chunked_body text p
dispatch done text p = (0, p)
dispatch error text p = (0, p)

abbrev pub is_final : State → Bool
is_final done = true
is_final error = true
is_final start = false
is_final request_line = false
is_final headers = false
is_final body = false
is_final chunked_body = false

-- `while (buf->size() > 0)`, with the bytes consumed so far.
unfoldable pub parse_loop : ℕ → HttpParser → Buffer → ℕ → ℕ × HttpParser × Buffer
parse_loop zero p b total = (total, p, b)
parse_loop (suc fuel) p b total =
    let (consumed, p') = dispatch p.state (peek b) p in
    let on = parse_loop fuel p' (retrieve consumed b) (total + consumed) in
    if b.size == 0 || is_final p.state
    then (total, p, b)
    else if p'.thrown || consumed == 0
    then (total, p', b)
    else on

-- `parse(buf)`; a round that goes on consumes a byte at least.
unfoldable pub parse : HttpParser → Buffer → ℕ × HttpParser × Buffer
parse p b = parse_loop (b.size + 1) p b 0
