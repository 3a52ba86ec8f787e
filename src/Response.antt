-- ===== src/Response.antt =====
-- src/http_response.cpp and include/httpserver/detail/http_response.h: what a handler sends.
use httpserver_cpp.Base.{Bool, true, false, [], Bytes}
use httpserver_cpp.Base.Dict.{Dict, put}
use httpserver_cpp.Types.{StatusType, CompressionLevel, best_speed}

pub record HttpResponse : Type 0 where
  pub force_gzip : Bool
  pub force_disable_keep_alive : Bool
  pub status : StatusType
  pub content_type : Bytes
  pub compression_level : CompressionLevel
  pub body : Bytes
  pub headers : Dict Bytes

unfoldable pub http_response : StatusType → Bytes → Bytes → HttpResponse
http_response status body content_type = record {
  force_gzip = false;
  force_disable_keep_alive = false;
  status = status;
  content_type = content_type;
  compression_level = best_speed;
  body = body;
  headers = [];
}

unfoldable pub force_gzip : HttpResponse → HttpResponse
force_gzip r = record r { force_gzip = true }

unfoldable pub force_disable_keep_alive : HttpResponse → HttpResponse
force_disable_keep_alive r = record r { force_disable_keep_alive = true }

unfoldable pub compression_level : CompressionLevel → HttpResponse → HttpResponse
compression_level level r = record r { compression_level = level }

unfoldable pub header : Bytes → Bytes → HttpResponse → HttpResponse
header name value r = record r { headers = put name value r.headers }
