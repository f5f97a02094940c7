-- ===== src/Feeds/Http.antt =====
-- A feed that is read with what was kept of the last answer (src/prow/connectors: kev and attack).
use prow_cti.Feeds.Fetch.{
  ContextCall, Feed, Fetched, HttpAnswer, done, feed_format_error, fetch_error, http_error,
  or_raise, raising, response, set_state_call, text_of, ◌>>=◌,
}
use prow_cti.Json.{Fields, Json, obj, str}
use prow_cti.Prelude.{List, Option, String, [], eqb, if◌then◌else◌, none, some, ◌==◌, ◌∷◌}

-- `_HttpFeedResult` and the answer of `_read_file_feed`.
pub data FeedResult (Body : Type 0) : Type 0 where
  not_modified : FeedResult Body
  modified : Body → Option String → Option String → FeedResult Body

abbrev pub header_if : String → Option String → List (String × String) → List (String × String)
header_if name none headers = headers
header_if name (some value) headers = if value == "" then headers else (name, value) ∷ headers

-- The state that is kept where a header has a value.
abbrev pub set_if : String → Option String → List ContextCall → List ContextCall
set_if key none more = more
set_if key (some value) more = set_state_call key (str value) ∷ more

module _ {Body : Type 0} (source : Feed Body) where
  -- `_read_file_feed`
  abbrev pub read_file_feed : String → Fetched (FeedResult Body)
  read_file_feed feed_url = elim (source.read_file feed_url) [
    | none ↦ raising fetch_error
    | some raw ↦ done (modified raw none none)
  ]

  -- `_http_get_feed`, over `client.get` on the url and the headers.
  unfoldable pub http_get_feed :
      (String → List (String × String) → HttpAnswer Body)
      → String
      → Option String
      → Option String
      → Fetched (FeedResult Body)
  http_get_feed client_get url etag last_modified =
      elim (client_get url
        (header_if "If-None-Match" etag (header_if "If-Modified-Since" last_modified []))) [
          | http_error ↦ raising fetch_error
          | response status body header ↦
              if eqb status 304
              then done not_modified
              else if eqb status 200
              then done (modified body (header "ETag") (header "Last-Modified"))
              else raising fetch_error
        ]

  -- `_parse_feed_json`
  abbrev pub parse_feed_json : Body → Fetched Fields
  parse_feed_json body = do
    text ← or_raise feed_format_error (source.decode_utf8 body)
    root ← or_raise feed_format_error (source.loads_text text)
    elim root [ obj o ↦ done o | _ ↦ raising feed_format_error ]

  -- What is fetched of the feed: from a file, or by a request with what was kept of the last answer.
  abbrev pub read_feed :
      (String → List (String × String) → HttpAnswer Body)
      → String
      → Option Json
      → Option Json
      → Fetched (FeedResult Body)
  read_feed client_get feed_url etag last_modified =
      if source.is_file_url feed_url
      then read_file_feed feed_url
      else http_get_feed client_get feed_url (text_of etag) (text_of last_modified)
