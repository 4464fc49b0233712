-- ===== src/Client/Request.antt =====
-- client/http/worker.c: EncodeRequest, the text that every request sends.
use Prim.Native.String.{String}
use tcpframe.Prelude.{
  ℕ, ◌≤◌, ◌≡◌, refl, arith, ltb, if◌then◌else◌, List, [], ◌∷◌, ◌++◌, Option, none, some,
}
use tcpframe.Prelude.Bytes.{length}
use tcpframe.Prelude.Text.{codes}

-- A line of the header, with CR and LF.
abbrev line : String → List ℕ
line s = codes s ++ (13 ∷ 10 ∷ [])

request_line : List ℕ
request_line = line "GET / HTTP/1.1"

host_line : List ℕ
host_line = line "Host: xx.com"

connection_line : List ℕ
connection_line = line "Connection: keep-alive"

agent_line : List ℕ
agent_line =
    line
      "User-Agent: Mozilla/5.0 (Windows NT 5.1) AppleWebKit/535.11 (KHTML, like Gecko) Chrome/17.0.963.56 Safari/535.11"

referer_line : List ℕ
referer_line = line "Referer: http://sbdji.com/"

accept_line : List ℕ
accept_line = line "Accept: */*"

encoding_line : List ℕ
encoding_line = line "Accept-Encoding: gzip,deflate,sdch"

language_line : List ℕ
language_line = line "Accept-Language: zh-CN,zh;q=0.8,en;q=0.6"

charset_line : List ℕ
charset_line = line "Accept-Charset: gb18030,utf-8;q=0.7,*;q=0.3"

unfoldable pub request : List ℕ
unfolding request_line host_line connection_line agent_line referer_line accept_line encoding_line
    language_line charset_line
request =
    request_line
    ++ (host_line
        ++ (connection_line
            ++ (agent_line
                ++ (referer_line
                    ++ (accept_line
                        ++ (encoding_line ++ (language_line ++ (charset_line ++ line ""))))))))

-- EncodeRequest: the bytes that it copies to the start of a buffer of `max_len` bytes; `none` stands
-- for -1. The text is made at the first call and kept.
unfoldable pub encode_request : ℕ → Option (List ℕ)
encode_request max_len = if ltb max_len (length request) then none else some request

pub length-request : length request ≡ 334
unfolding request
length-request = refl

-- The text fits every buffer of the program, so that EncodeRequest does not fail there.
pub encode_request-fits : (n : ℕ) → 334 ≤ n → encode_request n ≡ some request
unfolding encode_request
encode_request-fits n le = ground (arith, length-request)
