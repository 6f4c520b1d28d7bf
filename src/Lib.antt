-- ===== src/Lib.antt =====
-- A verification library for the firmware of a robotic car (Raspberry Pi Pico W, C) and of its
-- dashboard.
--
-- Parts
--   Barcode     buddy3/buddy3.c: the Code 39 reader. `Tables` and `Mirror` are the code tables and
--               `map_binary_to_char`; `Bars` and `Widest` the part of `convert_stay_counts` that
--               makes bits of bar widths; `Scanner` the globals as one record and every function
--               that changes them; `Invariant`, `Detector`, `Stored`, `Readings`, `Chunk`, `Symbol`,
--               `Symbols` and `Card` what readings do, one by one, as symbols and as whole cards.
--   Dhcp        wifi/access_point/dhcpserver: `Options` are the option routines, `Leases` the table
--               of leases with what a discover and a request do to it, `Server` the handler of a
--               datagram, branch for branch, `Sockets` what it asks lwIP for; `Search`, `Reply`,
--               `Invariant`, `Answers` and `Broadcast` are about its replies, `Holding` and `Traffic`
--               about who gets an address.
--   Dns         wifi/access_point/dnsserver: `Server` is the handler, `Sockets` what it asks lwIP
--               for; `Question`, `Names` and `Sending` are about its replies.
--   Telemetry   buddy1/buddy1.c and interface.c: `Parse` is the reading of a command, `Server` the
--               TCP callbacks, `Dashboard` the `sscanf` of interface.c, `Decimal` the numbers of
--               both, `Window` the socket, thread and window of interface.c; `Delivery` and
--               `Commands` are about the way of a command from one to the other, `Shown` about the
--               window; `Program` is the program of buddy1.c, `Sessions` goes from its start to the
--               window.
--   Robot       main.c, buddy2/buddy2.c and buddy5/buddy5.c: `Sensors` are the globals and interrupt
--               handlers of buddy5.c, `Distance` its filter, measurement and buzzer, `Pulse`
--               `getPulse`, `Motors` buddy2.c, `Main` the states and the rounds of main.c;
--               `Ranging`, `Pid`, `Upkeep`, `States`, `Journey` and `Odometry` are about them. The
--               compiler's floating-point arithmetic is a parameter (`Floats`); what is assumed of
--               it is part of IEEE 754.
--   Echo        wifi/tcp_client/picow_tcp_client.c: `Client` is the state and the callbacks, `Rounds`,
--               `Packets` and `Finish` are about histories of events, about the packets of one
--               round and about how the run ends.
--   Ntp         wifi/ntp_client/picow_ntp_client.c: `Client` is the state, the callbacks and the
--               rounds of the loop, `Run` the program around them; `Time` is about replies, `Alarm`
--               about pending requests, `Retries` about when the server is looked up.
--   Http        wifi/access_point/picow_access_point.c: `Request` is the reading of a request and the
--               page, `Connection` a client's connection with its callbacks, `Server` the opening
--               of the server, `Portal` the start-up with the DHCP and DNS servers; `Cutting`,
--               `Pages` and `Redirect` are about requests, `Buffers`, `Histories` and `Closing`
--               about what happens to a connection.
--   Tls         wifi/tls_client/tls_common.c: `Client` is the state, the callbacks and the run,
--               `Runs` is about how runs end; `Programs` are wifi/tls_client/picow_tls_client.c and
--               wifi/tls_client/tls_verify.c, `Verdicts` is about their results.
--   Heartbeat   wifi/tcp_server/picow_tcp_server.c, a client that sends messages: `Client` is the
--               state, the callbacks and the loop, `Intervals` is about its messages.
--   Console     wifi/freertos/ping/picow_freertos_ping_j.c: `Terminal` is the loop of `run_program`,
--               `Lines` and `Stored` are about the stored text.
--   Average     wifi/freertos/ping/picow_freertos_ping.c: `Tasks` are the two averages, `Pipeline`
--               the four tasks with their queues; `Window` is about which readings an average is of,
--               `Messages`, `Flow` and `Turns` about the way of a reading through the queues, `Drain`
--               and `Printed` about what is printed in the end.
--   Scan        wifi/wifi_scan/picow_wifi_scan.c: `Loop` is the loop of `main`, `Attempts` is about
--               when scans are tried.
--   Iperf       wifi/iperf/picow_iperf.c: `Reports` is the count of `iperf_report`, `Station` `main`
--               with the LED and the key; `Totals` and `Blinking` are about them. `Tasks` is
--               wifi/freertos/iperf/picow_freertos_iperf.c.
--   Bench       buddy5/buddy5_ultrasonic.c and buddy5/buddy5_ir.c, programs for the sensors alone:
--               `Ultrasonic` and `Encoders` are the code, `Measuring` and `Pulses` are about it.
--   Beacon      wifi/udp_beacon/picow_udp_beacon.c: `Packets` is the loop and its packets,
--               `Numbers` is about the numbers they carry.
--   Prelude     what these share.
--
--   The modules `Tests` and `DashboardTests` hold runs on concrete data; `Robot/Decimals` is an
--   arithmetic for them.
--   The parts meet where their programs do: the motors' controller reads the sensors' globals and
--   the loop of main.c calls both (`Robot/Main`); the dashboard reads what the telemetry server
--   writes (`Telemetry/Commands`); the access point runs its three servers side by side
--   (`Http/Portal`). The other parts are programs of their own; `Bench/Measuring` compares one with
--   the robot's code.
--
-- Correspondence
--   C functions keep their names, those of buddy5.c in snake case (`get_cm`). A function that changes
--   globals or a struct maps a record of them to a new one; a branch of a long function is a
--   function of its own. Sensor values, the clock, the contents of uninitialised stack buffers and
--   the results of the SDK's and lwIP's calls are arguments. Bytes are natural numbers, C strings and buffers lists of them; unsigned
--   arithmetic that can wrap has its `% 2 ^ w` written out. Undefined behaviour of C is a result
--   of its own (`overrun`, `undefined`, `none`).
--   Interrupts of the robot come between two rounds of its loop, or while it waits for an echo; those
--   of the barcode reader's button between two rounds of readings. The callbacks of the NTP client
--   come between two rounds of its loop, or between the two halves of a request.
--
-- Fuel
--   `opt_find` gets one more than the 308 bytes it may look at, and the walk over the labels of a
--   DNS name one more than the 300 bytes of the buffer: each round moves on by at least one byte.
--   `print_ℕ` gets one more than the number itself, which has no more digits than that.
--
-- Not modelled
--   printf and debugging output, where it is not the program's purpose; the Wi-Fi, LWIP and
--   FreeRTOS start-up and the set-up of pins, which call their libraries and nothing else; the
--   calls of interface.c that paint and register its window; the Pico SDK, lwIP and mbedtls; the
--   Python scripts, build files and configuration headers; the SDK's examples for blinking and ping;
--   what the tasks of wifi/freertos/ping/picow_freertos_ping.c make of a number as text. A value that
--   does not fit an `int` in `sscanf` is undefined in C and is left unbounded.
pub mod Prelude
pub mod Barcode
pub mod Dhcp
pub mod Dns
pub mod Telemetry
pub mod Robot
pub mod Echo
pub mod Ntp
pub mod Http
pub mod Tls
pub mod Heartbeat
pub mod Console
pub mod Average
pub mod Scan
pub mod Iperf
pub mod Bench
pub mod Beacon
