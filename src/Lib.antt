-- ===== src/Lib.antt =====
-- A model of the core of baetyl-go: the node specification (spec/v1), the MQTT client (mqtt), the device
-- context of drivers (dmcontext), the context of a service (context) with the keys and certificates (pki) that
-- it checks, the task queue (task), the messages within a process (pubsub) and the ports of native services
-- (native), the registry of plugins (plugin) and that of functions (trigger). A driver works with dmcontext, which gives it the messages that come over mqtt and reports over mqtt
-- what spec/v1 describes; its client of mqtt is made by context. task, pubsub, plugin, trigger and native stand on their own. The
-- other packages (cache, the server and the requests of http, log, errors, mock, faas and the rest of
-- utils) are not modelled: they wrap libraries, files and the network, are small registries, or are a copy of
-- another library (cache).
--
-- Common holds what the files share: tests on numbers and texts, association lists for Go maps (`Dict`), and
-- `Outcome`, what a Go function with an error result does. A map's entries stand in the order in which one
-- `range` loop meets them.
--
-- Spec models spec/v1/node.go and spec/v1/sync_report.go. `Spec.Value` is `interface{}` with the cases that
-- the type assertions tell apart; `Spec.Merge` is `merge`, `Spec.Delta` `diff`, `clean` and `patch`,
-- `Spec.Infos` the lists of applications and devices, and `Spec.Stats` the node's view (`populateNodeStats`
-- to `calculateAppMode`). encoding/json, jsonpatch, the parser of quantities and strconv are parameters.
--
-- Mqtt models mqtt: `Mqtt.Topic` topic.go, `Mqtt.Counter` counter.go and `MatchTopicQOS`, `Mqtt.Stream` one
-- connection of stream.go, with the answers of the network and of the observer as arguments, and
-- `Mqtt.Client` client.go with the goroutine that sends, as a state machine over the events that the
-- scheduler, the network and the callers cause. Timers and pings are not modelled.
--
-- Native models native: `Native.Port` is the allocator of port.go, whose loop has as fuel the number of rounds
-- that it makes, the size of the range; `Native.Mapping` is the table of mapping.go, with the events of the
-- file watcher. Task models task: `Task.Message` the messages, the channel broker, the table of results and the
-- producer, `Task.Worker` one tick of the worker, with the tasks as what they return. `Dm.Expression` models
-- dmcontext/expression.go over an abstract arithmetic.
--
-- `Dm.Report` is `ReportDevicePropertiesWithFilter`, and `Dm.Context` the handlers that make a message a call of
-- a driver's callback, with the parsing of property values in device.go. What a handler does is the list of the
-- calls that it makes, with its error. `Dm.Observer` is observer.go, with the two regular expressions as a
-- matcher that prefers what package regexp prefers, and the channels that `Start` makes. `Dm.Request` is
-- `GetDeviceProperties` as a state machine with `processResponse`: an event is a step of a call, its timer, or a
-- response, in any order. `Dm.Serve` is a round of `processing`, and `Dm.Send` the reports, from the
-- filter to the channel of `Mqtt.Client`. The set-up of the context is not modelled.
--
-- Pubsub models pubsub/pubsub.go: the channels by topic, each a queue of bounded size, and the readers, which are
-- not code of the package. A send that the timer ends is one to a full queue, and each call is one step: a channel
-- without a buffer, and calls between the sends of one Publish, are not modelled. Pki models pki/utils.go over the
-- functions of crypto and encoding/pem, the parameter `Crypto`; the loop over a chain has the length of the data
-- as fuel, and every round consumes some of it. `Utils.Cert`, `Mqtt.Options` and `Http.Options` are the
-- configurations of clients and their options, and Ctx models context: `Ctx.Env` env.go, `Ctx.Config` the
-- configuration and how it is populated, and `Ctx.Service` context.go, where files, YAML and tls are the
-- parameter `Host`. Plugin models plugin/register.go the way of `Dm.Request`: an event is a step of a call of
-- `GetPlugin`, a registration or `ClosePlugins`.
--
-- `Pki.Issue` is pki/pki.go, with crypto/x509 as the parameter `X509` and the two readings of the clock as an argument;
-- what one reading of rand.Reader gives is part of `Crypto`. `Pki.Tool` is tools/issue_certificate.go on
-- top of it, with the file system as the parameter `Disk`. `Utils.Validate` is utils/validate.go, and `Utils.Regexp` the
-- part of package regexp that its patterns use; a repeated group has the length of the text as fuel, since every repetition
-- takes a byte.
--
-- `Dm.Format` is dmcontext/format.go over the parameter `Values`, what reflect, package time and the library cast tell of
-- an `interface{}`; its calls of itself are bounded by a depth, below which the
-- outcome is an argument, and two levels are enough.
--
-- `Pubsub.Processor` is pubsub/processor.go as a state machine: an event is a choice of the goroutine's select, the end of a
-- call of the handler, a message, the expiry of the timer or `Close`, in any order. The timer is that of the version of Go
-- in go.mod, 1.18, whose `Reset` keeps a tick that was not taken.
--
-- Trigger is trigger/trigger.go, with a function as what reflect tells of it.
pub mod Common
pub mod Ctx
pub mod Dm
pub mod Http
pub mod Mqtt
pub mod Native
pub mod Pki
pub mod Plugin
pub mod Pubsub
pub mod Spec
pub mod Task
pub mod Trigger
pub mod Utils
