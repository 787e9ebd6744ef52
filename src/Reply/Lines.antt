-- ===== src/Reply/Lines.antt =====
-- The tables of csi_http/server/reply.cpp: the status line and the stock page of each status.
use csi_http.Base.{[], ◌∷◌, Bytes, codes, ◌++◌}
use csi_http.Status.{
  StatusType, ok, created, accepted, no_content, multiple_choices, moved_permanently,
  moved_temporarily, not_modified, bad_request, unauthorized, forbidden, not_found,
  precondition_failed, internal_server_error, not_implemented, bad_gateway, service_unavailable,
}

abbrev pub crlf : Bytes
crlf = b'\r' ∷ b'\n' ∷ []

-- `status_strings::to_buffer`.
unfoldable pub to_buffer : StatusType → Bytes
to_buffer ok = codes "200 OK" ++ crlf
to_buffer created = codes "201 Created" ++ crlf
to_buffer accepted = codes "202 Accepted" ++ crlf
to_buffer no_content = codes "204 No Content" ++ crlf
to_buffer multiple_choices = codes "300 Multiple Choices" ++ crlf
to_buffer moved_permanently = codes "301 Moved Permanently" ++ crlf
to_buffer moved_temporarily = codes "302 Moved Temporarily" ++ crlf
to_buffer not_modified = codes "304 Not Modified" ++ crlf
to_buffer bad_request = codes "400 Bad Request" ++ crlf
to_buffer unauthorized = codes "401 Unauthorized" ++ crlf
to_buffer forbidden = codes "403 Forbidden" ++ crlf
to_buffer not_found = codes "404 Not Found" ++ crlf
to_buffer precondition_failed = codes "412 Precondition Failed" ++ crlf
to_buffer internal_server_error = codes "500 Internal Server Error" ++ crlf
to_buffer not_implemented = codes "501 Not Implemented" ++ crlf
to_buffer bad_gateway = codes "502 Bad Gateway" ++ crlf
to_buffer service_unavailable = codes "503 Service Unavailable" ++ crlf
to_buffer _ = codes "500 Internal Server Error" ++ crlf

-- `stock_replies::to_string`.
unfoldable pub stock_reply : StatusType → Bytes
stock_reply ok = codes ""
stock_reply created =
    codes "<html><head><title>Created</title></head>"
    ++ codes "<body><h1>201 Created</h1></body></html>"
stock_reply accepted =
    codes "<html><head><title>Accepted</title></head>"
    ++ codes "<body><h1>202 Accepted</h1></body></html>"
stock_reply no_content =
    codes "<html><head><title>No Content</title></head>"
    ++ codes "<body><h1>204 Content</h1></body></html>"
stock_reply multiple_choices =
    codes "<html><head><title>Multiple Choices</title></head>"
    ++ codes "<body><h1>300 Multiple Choices</h1></body></html>"
stock_reply moved_permanently =
    codes "<html><head><title>Moved Permanently</title></head>"
    ++ codes "<body><h1>301 Moved Permanently</h1></body></html>"
stock_reply moved_temporarily =
    codes "<html><head><title>Moved Temporarily</title></head>"
    ++ codes "<body><h1>302 Moved Temporarily</h1></body></html>"
stock_reply not_modified =
    codes "<html><head><title>Not Modified</title></head>"
    ++ codes "<body><h1>304 Not Modified</h1></body></html>"
stock_reply bad_request =
    codes "<html><head><title>Bad Request</title></head>"
    ++ codes "<body><h1>400 Bad Request</h1></body></html>"
stock_reply unauthorized =
    codes "<html><head><title>Unauthorized</title></head>"
    ++ codes "<body><h1>401 Unauthorized</h1></body></html>"
stock_reply forbidden =
    codes "<html><head><title>Forbidden</title></head>"
    ++ codes "<body><h1>403 Forbidden</h1></body></html>"
stock_reply not_found =
    codes "<html><head><title>Not Found</title></head>"
    ++ codes "<body><h1>404 Not Found</h1></body></html>"
stock_reply precondition_failed =
    codes "<html><head><title>Precondition Failed</title></head>"
    ++ codes "<body><h1>412 Precondition Failed</h1></body></html>"
stock_reply internal_server_error =
    codes "<html><head><title>Internal Server Error</title></head>"
    ++ codes "<body><h1>500 Internal Server Error</h1></body></html>"
stock_reply not_implemented =
    codes "<html><head><title>Not Implemented</title></head>"
    ++ codes "<body><h1>501 Not Implemented</h1></body></html>"
stock_reply bad_gateway =
    codes "<html><head><title>Bad Gateway</title></head>"
    ++ codes "<body><h1>502 Bad Gateway</h1></body></html>"
stock_reply service_unavailable =
    codes "<html><head><title>Service Unavailable</title></head>"
    ++ codes "<body><h1>503 Service Unavailable</h1></body></html>"
stock_reply _ =
    codes "<html><head><title>Internal Server Error</title></head>"
    ++ codes "<body><h1>500 Internal Server Error</h1></body></html>"
