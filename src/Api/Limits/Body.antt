-- ===== src/Api/Limits/Body.antt =====
-- The body that the application gets from the middleware.
use dfip_v.Prelude.{
  ℕ, ◌+◌, ◌≡◌, refl, inl, inr, true, false, List, [], ◌∷◌, ◌++◌, length, length-append,
  append_assoc, if◌then◌else◌, ltb, leb, arith, Bool-cases,
}
use dfip_v.Api.Limits.{Message, request, passed, too_large, drain, read_body}

abbrev pub joined : List (List ℕ) → List ℕ → List ℕ
joined [] last = last
joined (chunk ∷ chunks) last = chunk ++ joined chunks last

-- a whole body: parts that announce more, and the last one
abbrev pub body_stream : List (List ℕ) → List ℕ → List Message
body_stream [] last = request last false ∷ []
body_stream (chunk ∷ chunks) last = request chunk true ∷ body_stream chunks last

drain_all :
    (chunks : List (List ℕ)) (last : List ℕ) → drain true (body_stream chunks last) ≡ too_large
unfolding drain
drain_all [] last = refl
drain_all (chunk ∷ chunks) last = drain_all chunks last

read_body_from :
    (max_bytes : ℕ) (body : List ℕ) (chunks : List (List ℕ)) (last : List ℕ)
    → read_body max_bytes body (body_stream chunks last) ≡ (
        if leb (length (body ++ joined chunks last)) max_bytes
        then passed (body ++ joined chunks last)
        else too_large)
unfolding read_body
read_body_from max_bytes body [] last = unfold drain in ground (arith, length-append body last)
read_body_from max_bytes body (chunk ∷ chunks) last =
    elim (Bool-cases (ltb max_bytes (length body + length chunk))) [
      | inl over ↦
          rw (over, drain_all chunks last)
            (ground (
              arith,
              length-append body (chunk ++ joined chunks last),
              length-append chunk (joined chunks last),
            ))
      | inr fits ↦
          rw (fits, ← append_assoc body chunk (joined chunks last))
            (read_body_from max_bytes (body ++ chunk) chunks last)
    ]

-- A body that arrives whole, in whatever parts, reaches the application unchanged if it has at most
-- `max_bytes` bytes, and is refused as too large otherwise.
pub read_body_whole :
    (max_bytes : ℕ) (chunks : List (List ℕ)) (last : List ℕ)
    → read_body max_bytes [] (body_stream chunks last) ≡ (
        if leb (length (joined chunks last)) max_bytes
        then passed (joined chunks last)
        else too_large)
read_body_whole max_bytes chunks last = read_body_from max_bytes [] chunks last
