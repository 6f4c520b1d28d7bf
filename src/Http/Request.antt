-- ===== src/Http/Request.antt =====
-- wifi/access_point/picow_access_point.c: the reading of a request and the page that answers it.
-- `cyw43_gpio_get` and `cyw43_gpio_set` read and write the state of the LED, which is passed along.
use robotic_car_p3e.Prelude.{
  ℕ, suc, ◌+◌, Bool, not, Option, none, some, List, [], ◌∷◌, ◌++◌, ◌==◌, if◌then◌else◌, codes, drop,
  set, ℤ, is_zero,
}
use robotic_car_p3e.Telemetry.Decimal.{print_ℕ, scan_int}
use robotic_car_p3e.Telemetry.Parse.{c_string, starts_with}
use robotic_car_p3e.Telemetry.Dashboard.{literal}

-- `strchr`, as the index of the first such character of a C string.
unfoldable pub index_of : ℕ → List ℕ → Option ℕ
index_of c [] = none
index_of c (x ∷ xs) =
    let later = index_of c xs in
    if x == 0
    then none
    else if x == c
    then some 0
    else elim later [ none ↦ none | some i ↦ some (suc i) ]

abbrev pub http_get : List ℕ
http_get = codes "GET"

abbrev pub led_test : List ℕ
led_test = codes "/ledtest"

-- Where the request's text begins in the headers: behind the method and a space.
abbrev pub request_at : ℕ
request_at = 4

-- The headers with the zero bytes that end the path and the parameters, and where the parameters
-- begin. Without a question mark the path is not ended.
abbrev pub cut_space : Option ℕ → List ℕ → List ℕ
cut_space none headers = headers
cut_space (some i) headers = set headers (request_at + i) 0

abbrev pub cut_at : Option ℕ → Option ℕ → List ℕ → List ℕ × Option ℕ
cut_at none space headers = (headers, none)
cut_at (some i) space headers =
    (cut_space space (set headers (request_at + i) 0), some (request_at + i + 1))

unfoldable pub cut_request : List ℕ → List ℕ × Option ℕ
unfolding index_of
cut_request headers =
    let request = drop request_at headers in
    cut_at (index_of b'?' request) (index_of b' ' request) headers

-- The two C strings that `test_server_content` is called with.
abbrev pub request_of : List ℕ → List ℕ
request_of headers = c_string (drop request_at headers)

abbrev pub params_of : List ℕ → Option ℕ → Option (List ℕ)
params_of headers none = none
params_of headers (some at) = some (c_string (drop at headers))

-- `sscanf(params, LED_PARAM, &led_state)`: the number behind `led=`, if it is read.
abbrev pub scan_number : Option (List ℕ) → Option ℤ
scan_number none = none
scan_number (some rest) = scan_int rest

-- Where the number does not fit an `int`, C leaves the result undefined; it is unbounded here.
unfoldable pub led_param : List ℕ → Option ℤ
led_param params = scan_number (literal (codes "led=") params)

-- The LED behind the request: as the parameter says, if one is read.
abbrev pub led_as : Bool → Option ℤ → Bool
led_as led none = led
led_as led (some n) = not (is_zero n)

unfoldable pub led_after : Bool → Option (List ℕ) → Bool
unfolding led_param
led_after led none = led
led_after led (some params) = led_as led (led_param params)

-- `LED_TEST_BODY`.
unfoldable pub led_body : Bool → List ℕ
led_body led =
    codes "<html><body><h1>Hello from Pico W.</h1><p>Led is "
    ++ ((if led then codes "ON" else codes "OFF")
        ++ (codes "</p><p><a href=\"?led="
            ++ ((if led then codes "0" else codes "1")
                ++ (codes "\">Turn led "
                    ++ ((if led then codes "OFF" else codes "ON") ++ codes "</a></body></html>")))))

-- What `test_server_content` makes of a request: the LED, and the page, empty for another path.
unfoldable pub test_server_content : Bool → List ℕ → Option (List ℕ) → Bool × List ℕ
unfolding led_after
test_server_content led request params =
    if starts_with led_test request
    then (led_after led params, led_body (led_after led params))
    else (led, [])

-- `HTTP_RESPONSE_HEADERS` with its status and length.
unfoldable pub response_headers : ℕ → ℕ → List ℕ
response_headers status size =
    codes "HTTP/1.1 "
    ++ print_ℕ status (
        codes " OK\nContent-Length: "
        ++ print_ℕ size (codes "\nContent-Type: text/html; charset=utf-8\nConnection: close\n\n"))

-- `HTTP_RESPONSE_REDIRECT`; `gw` is the text that `ipaddr_ntoa` gives.
unfoldable pub response_redirect : List ℕ → List ℕ
response_redirect gw =
    codes "HTTP/1.1 302 Redirect\nLocation: http://" ++ (gw ++ (led_test ++ codes "\n\n"))
